-- ===== src/Examples/Configs.antt =====
-- JSON values, a configuration, a file of credentials, and texts.
use near_workspaces_rs.Prelude.{
  String, Option, none, some, unwrap_or, List, [], ◌∷◌, ◌≡◌, ◌≢◌, refl, sym, inr, inl, ◌==◌,
  string_eq, if◌then◌else◌, Bool-cases,
}
use near_workspaces_rs.Result.{Result, ok, err}
use near_workspaces_rs.Error.{BoxedError, text}
use near_workspaces_rs.Config.{ℤ, field, merged, Json, Files}

mutual
  pub data JsonValue : Type 0 where
    null_value : JsonValue
    number_value : ℤ → JsonValue
    object_value : Fields → JsonValue

  pub data Fields : Type 0 where
    no_more : Fields
    entry : String → JsonValue → Fields → Fields

abbrev pub fields_of : List (String × JsonValue) → Fields
fields_of [] = no_more
fields_of ((k, v) ∷ fields) = entry k v (fields_of fields)

abbrev look : String → Fields → Option JsonValue
look k no_more = none
look k (entry name v fields) = if name == k then some v else look k fields

abbrev pub lookup_value : String → JsonValue → Option JsonValue
lookup_value k (object_value fields) = look k fields
lookup_value k _ = none

abbrev old_fields : JsonValue → Fields
old_fields (object_value fields) = fields
old_fields _ = no_more

unfoldable mutual
  pub merge_values : JsonValue → JsonValue → JsonValue
  merge_values config (object_value fields) = object_value (merge_fields (old_fields config) fields)
  merge_values config v = v

  pub merge_fields : Fields → Fields → Fields
  merge_fields old no_more = old
  merge_fields old (entry k v fields) =
      entry k (merge_values (unwrap_or (look k old) null_value) v) (merge_fields old fields)

look-old : (k : String) (config : JsonValue) → look k (old_fields config) ≡ lookup_value k config
look-old k (object_value fields) = refl
look-old k null_value = refl
look-old k (number_value n) = refl

look-merge :
    (k : String) (old : Fields) (fields : List (String × JsonValue))
    → look k (merge_fields old (fields_of fields))
      ≡ merged merge_values null_value (look k old) (field k fields)
unfolding merge_fields
look-merge k old [] = refl
look-merge k old ((name, v) ∷ fields) = elim (Bool-cases (name == k)) [
  | inl same ↦ rw same (rw ((string_eq.eq_iff name k).0 same) refl)
  | inr differ ↦ rw differ (look-merge k old fields)
]

pub merge-number_value :
    (config : JsonValue) (n : ℤ) → merge_values config (number_value n) ≡ number_value n
unfolding merge_values
merge-number_value config n = refl

pub merge-object_value :
    (k : String) (config : JsonValue) (fields : List (String × JsonValue))
    → lookup_value k (merge_values config (object_value (fields_of fields)))
      ≡ merged merge_values null_value (lookup_value k config) (field k fields)
unfolding merge_values
merge-object_value k config fields =
    rw (sym (look-old k config)) (look-merge k (old_fields config) fields)

pub number_value-null : (n : ℤ) → number_value n ≢ null_value
number_value-null n e = cc

pub object_value-null : (fields : Fields) → object_value fields ≢ null_value
object_value-null fields e = cc

abbrev pub json_lib : Json JsonValue
json_lib = record {
  null = null_value;
  number = number_value;
  object = λ fields. object_value (fields_of fields);
  lookup = lookup_value;
  merge = merge_values;
  number-null = number_value-null;
  object-null = λ fields. object_value-null (fields_of fields);
  lookup-null = λ k. refl;
  merge-number = λ config n. merge-number_value config n;
  lookup-merge = λ k config fields h. merge-object_value k config fields;
}

abbrev pub read_as : Option JsonValue → Result JsonValue BoxedError
read_as (some v) = ok v
read_as none = err (text "no JSON")

pub was : (o : Option JsonValue) (v : JsonValue) → read_as o ≡ ok v → o ≡ some v
was none v h = absurd (cc)
was (some u) v h = cc

-- A system with one file, the configuration.
abbrev pub config_file :
    {W : Type 0} (config : W → Option JsonValue) (put : W → JsonValue → W)
    → ((w : W) (v : JsonValue) → config (put w v) ≡ some v)
    → Files W JsonValue
config_file config put put_config = record {
  open_file = λ path w. (ok 0, w);
  from_reader = λ file w. (read_as (config w), w);
  create = λ path w. (ok 0, w);
  to_writer = λ file v w. (ok tt, put w v);
  join = λ dir name. dir;
  content = λ path w. config w;
  read = λ path w file v opened read. was (config w) v read;
  written = λ path w file v created written. put_config w v;
}
