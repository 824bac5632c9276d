-- ===== src/Config/Paths.antt =====
-- What merging the sandbox's settings into a configuration changes (workspaces/src/network/config.rs).
use near_workspaces_rs.Prelude.{
  String, true, Option, none, some, unwrap_or, List, [], ◌∷◌, ◌≡◌, refl, sym, ◌∙◌, ap, ◌≢◌, ◌⊎◌,
  inl, inr, ◌==◌, string_eq, Bool-cases,
}
use near_workspaces_rs.Config.{ℤ, field, merged, Json, sandbox_config}

-- The two settings of the sandbox
abbrev pub payload_path : List String
payload_path = "rpc" ∷ "limits_config" ∷ "json_payload_max_size" ∷ []

abbrev pub files_path : List String
files_path = "store" ∷ "max_open_files" ∷ []

same_eq : (k : String) → (k == k) ≡ true
same_eq k = (string_eq.eq_iff k k).1 refl

module _ {V : Type 0} (json : Json V) where
  open json use {
    null, number, object, lookup, merge, number-null, object-null, lookup-null, merge-number,
    lookup-merge,
  }

  -- What stands at a path of field names, and that two paths part before either of them ends.
  abbrev pub at : List String → Option V → Option V
  at [] o = o
  at (k ∷ ks) none = none
  at (k ∷ ks) (some v) = at ks (lookup k v)

  abbrev pub Apart : List String → List String → Type 0
  Apart [] js = ⊥
  Apart (k ∷ ks) [] = ⊥
  Apart (k ∷ ks) (j ∷ js) = (k ≢ j) ⊎ Apart ks js

  -- A number at a path, as an object of objects.
  abbrev nested : List String → V → V
  nested [] v = v
  nested (k ∷ ks) v = object ((k, nested ks v) ∷ [])

  nested-null : (js : List String) (n : ℤ) → nested js (number n) ≢ null
  nested-null [] n = number-null n
  nested-null (j ∷ js) n = object-null _

  at-none : (ks : List String) → at ks none ≡ none
  at-none [] = refl
  at-none (k ∷ ks) = refl

  -- A field that is merged into a missing one is merged into null, which has no fields.
  at-null :
      (ks js : List String) (o : Option V) → Apart ks js → at ks (some (unwrap_or o null)) ≡ at ks o
  at-null [] js o apart = absurd apart
  at-null (k ∷ ks) js none apart = rw (lookup-null k) (at-none ks)
  at-null (k ∷ ks) js (some v) apart = refl

  -- What a field holds after a merge, if the patch has it, and if it has not.
  lookup-field :
      (k : String) (config v : V) (fields : List (String × V))
      → v ≢ null
      → field k fields ≡ some v
      → lookup k (merge config (object fields)) ≡ some (merge (unwrap_or (lookup k config) null) v)
  lookup-field k config v fields h e =
      lookup-merge k config fields (λ q. h (same (sym e ∙ q)))
      ∙ ap (merged merge null (lookup k config)) e
    where
      same : some v ≡ some null → v ≡ null
      same q = cc

  lookup-other :
      (k : String) (config : V) (fields : List (String × V))
      → field k fields ≡ none
      → lookup k (merge config (object fields)) ≡ lookup k config
  lookup-other k config fields e =
      lookup-merge k config fields (λ q. differ (sym e ∙ q))
      ∙ ap (merged merge null (lookup k config)) e
    where
      differ : none ≡ some null → ⊥
      differ q = cc

  rest-Apart :
      (k j : String) (ks js : List String) → (j == k) ≡ true → Apart (k ∷ ks) (j ∷ js) → Apart ks js
  rest-Apart k j ks js same (inl ne) = absurd (ne (sym ((string_eq.eq_iff j k).0 same)))
  rest-Apart k j ks js same (inr apart) = apart

  -- Merging a number into a path changes nothing at paths that part from it.
  at-Apart :
      (ks js : List String) (n : ℤ) (config : V)
      → Apart ks js
      → at ks (some (merge config (nested js (number n)))) ≡ at ks (some config)
  at-Apart [] js n config apart = absurd apart
  at-Apart (k ∷ ks) [] n config apart = absurd apart
  at-Apart (k ∷ ks) (j ∷ js) n config apart = elim (Bool-cases (j == k)) [
    | inl same ↦
        rw
          (lookup-field k config (nested js (number n)) ((j, nested js (number n)) ∷ [])
            (nested-null js n) (rw same refl))
          (at-Apart ks js n _ (rest-Apart k j ks js same apart)
            ∙ at-null ks js (lookup k config) (rest-Apart k j ks js same apart))
    | inr differ ↦ rw (lookup-other k config ((j, nested js (number n)) ∷ []) (rw differ refl)) refl
  ]

  -- The number that was merged in stands at its path.
  at-nested :
      (js : List String) (n : ℤ) (config : V)
      → at js (some (merge config (nested js (number n)))) ≡ some (number n)
  at-nested [] n config = ap some (merge-number config n)
  at-nested (j ∷ js) n config =
      rw
        (lookup-field j config (nested js (number n)) ((j, nested js (number n)) ∷ [])
          (nested-null js n) (rw (same_eq j) refl))
        (at-nested js n _)

  limits : List String
  limits = "limits_config" ∷ "json_payload_max_size" ∷ []

  fields : ℤ → ℤ → List (String × V)
  unfolding limits
  fields m n =
      ("rpc", nested limits (number m)) ∷ ("store", nested ("max_open_files" ∷ []) (number n)) ∷ []

  -- What a merge with the sandbox's configuration does to a configuration
  pub configured :
      (config : V) (m n : ℤ)
      → (at payload_path (some (merge config (sandbox_config json m n))) ≡ some (number m))
        × (at files_path (some (merge config (sandbox_config json m n))) ≡ some (number n))
        × ((ks : List String)
            → Apart ks payload_path
            → Apart ks files_path
            → at ks (some (merge config (sandbox_config json m n))) ≡ at ks (some config))
  unfolding sandbox_config limits fields
  configured config m n = (
    rw
        (lookup-field "rpc" config (nested limits (number m)) (fields m n) (nested-null limits m)
          refl)
        (at-nested limits m _),
    rw
        (lookup-field "store" config (nested ("max_open_files" ∷ []) (number n)) (fields m n)
          (nested-null ("max_open_files" ∷ []) n) refl)
        (at-nested ("max_open_files" ∷ []) n _),
    others,
  )
    where
      others :
          (ks : List String)
          → Apart ks payload_path
          → Apart ks files_path
          → at ks (some (merge config (object (fields m n)))) ≡ at ks (some config)
      others [] p q = absurd p
      others (k ∷ ks) p q = elim (Bool-cases ("rpc" == k)) [
        | inl rpc ↦
            rw
              (lookup-field k config (nested limits (number m)) (fields m n) (nested-null limits m)
                (rw rpc refl))
              (at-Apart ks limits m _ (rest-Apart k "rpc" ks limits rpc p)
                ∙ at-null ks limits (lookup k config) (rest-Apart k "rpc" ks limits rpc p))
        | inr r ↦ elim (Bool-cases ("store" == k)) [
          | inl store ↦
              rw
                (lookup-field k config (nested ("max_open_files" ∷ []) (number n)) (fields m n)
                  (nested-null ("max_open_files" ∷ []) n) (rw (r, store) refl))
                (at-Apart ks ("max_open_files" ∷ []) n _
                    (rest-Apart k "store" ks ("max_open_files" ∷ []) store q)
                  ∙ at-null ks ("max_open_files" ∷ []) (lookup k config)
                      (rest-Apart k "store" ks ("max_open_files" ∷ []) store q))
          | inr s ↦ rw (lookup-other k config (fields m n) (rw (r, s) refl)) refl
        ]
      ]
