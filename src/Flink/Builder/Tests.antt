-- ===== src/Flink/Builder/Tests.antt =====
-- Tests of the builder of tables, with texts for tables.
use Prim.Native.String.{◌++◌}
use feathub.Prelude.{
  ◌≡◌, ◌≢◌, refl, sym, ◌∙◌, true, false, String, List, [], ◌∷◌, none, some, ℕ, string_eq, ◌==◌,
  Bool-cases, inl, inr, arith, ◌<◌, not_true, if◌then◌else◌,
}
use feathub.Dict.{contains, get, insert, keys}
use feathub.Common.Actions.{Post}
use feathub.Errors.{
  Error, Result, ok, err, feathub_exception, recursion_error, key_error, ok-injective,
}
use feathub.Schema.{Schema}
use feathub.Types.{BasicDType, primitive_type}
use feathub.Flink.Descriptors.{
  Feature, join_transform, View, Descriptor, feature_table, derived_view, sliding_view, sql_view,
  other_descriptor, name_of,
}
use feathub.Flink.Planner.Fixtures.{Descriptor-discrete, descriptor_eq}
use feathub.Flink.Builder.Steps.{BuilderState}
use feathub.Flink.Builder.Reference.{Builds, Consistent, Sound, no_views}
use feathub.Flink.Builder.Sound.{get_table-Sound}
use feathub.Flink.Builder.Again.{get_table-again}
use feathub.Flink.Builder.Ranked.{IsRanked, RaisesOnly}
use feathub.Flink.Builder.Build.{Operations, descriptor, build}
use feathub.Flink.Builder.Build.Cleared.{build-Consistent}
use feathub.Flink.Builder.Depth.{Done, get_table-Done}
use feathub.Flink.Builder.{Calls, table_names, joined_tables, create_views, construct, get_table}

abbrev no_schema : Schema
no_schema = record { field_names = []; field_types = [] }

abbrev table : String → Descriptor
table name =
    feature_table
      (record { name = name; schema = no_schema; timestamp_field = none; bounded = true })

abbrev join_from : String → Feature
join_from name = record {
  name = "joined";
  dtype = primitive_type BasicDType.int32;
  transform = join_transform name "x";
  keys = some ("id" ∷ []);
}

abbrev view : String → List Feature → View
view name features = record {
  name = name;
  features = features;
  timestamp_field = none;
  timestamp_format = "epoch";
  filter_expr = none;
  keep_source_fields = false;
}

abbrev names : List (String × (Descriptor × String)) → String
names [] = ""
names ((name, (d, t)) ∷ more) = t ++ " " ++ names more

abbrev view_names : List (String × String) → String
view_names [] = ""
view_names ((name, t) ∷ more) = name ++ "=" ++ t ++ " " ++ view_names more

-- A table is written as what it is made of.
abbrev plain : (String → Result Descriptor) → List String → Calls
plain registry registered = record {
  Table = String;
  get_table_from_source = λ t. ok (t.name);
  derive = λ v source t joined. ok (v.name ++ "(" ++ t ++ " " ++ names joined ++ ")");
  slide = λ v t. ok t;
  sql_query = λ views v. ok (v.name ++ "(" ++ view_names views ++ ")");
  get_features = registry;
  registered = registered;
  iterate = λ ns. ns;
}

abbrev empty : BuilderState String
empty = record { built_tables = []; tables_being_built = []; temporary_views = [] }

abbrev users_only : String → Result Descriptor
users_only name = if name == "users" then ok (table "users") else err feathub_exception

abbrev scores : Descriptor
scores = derived_view (view "scores" (join_from "users" ∷ [])) (table "clicks")

abbrev with_users : Calls
with_users = plain users_only []

abbrev scores_built : BuilderState String
scores_built = record {
  built_tables =
      ("clicks", (table "clicks", "clicks"))
      ∷ ("users", (table "users", "users"))
      ∷ ("scores", (scores, "scores(clicks users )"))
      ∷ [];
  tables_being_built = [];
  temporary_views = [];
}

scores_run : get_table with_users 2 scores empty ≡ (ok "scores(clicks users )", scores_built)
unfolding get_table construct joined_tables table_names get insert contains
scores_run = refl

get_table-Sound_example :
    Sound with_users (Builds with_users scores) (get_table with_users 2 scores empty)
get_table-Sound_example = get_table-Sound with_users 2 scores empty (tt, no_views)

get_table-again_example :
    get_table with_users 1 scores scores_built ≡ (ok "scores(clicks users )", scores_built)
get_table-again_example =
    get_table-again with_users 2 0 scores empty scores_built "scores(clicks users )" scores_run

abbrev InTable : Descriptor → Type 0
InTable (feature_table t) = t.name ≢ "scores"
InTable _ = ⊥

abbrev InScores : Descriptor → Type 0
InScores (feature_table t) = t.name ≢ "scores"
InScores (derived_view v source) = (v.name ≡ "scores") × InTable source
InScores _ = ⊥

abbrev height : Descriptor → ℕ
height (derived_view v source) = 1
height _ = 0

users_lem :
    (name : String) (d : Descriptor)
    → users_only name ≡ ok d
    → (InScores d × (height d ≡ 0)) × (name_of d ≡ name)
users_lem name d h = elim (Bool-cases (name == "users")) [
  | inl equal ↦
      rw (sym (ok-injective (rw equal at h)), (string_eq.eqb_iff name "users").0 equal)
        (((λ e. not_true ((string_eq.eqb_iff "users" "scores").1 e)), refl), refl)
  | inr differ ↦ (let g = rw differ at h in cc)
]

scores-IsRanked : IsRanked with_users InScores height
scores-IsRanked = record {
  derived_source = below_lem;
  sliding_source = λ v source met. absurd met;
  joined = λ v source name d met among e.
      (let ((m, r), n) = users_lem name d e in (m, omega (arith, r)));
  in_registry = λ v name d met among other e. absurd met;
  distinct = distinct_lem;
  keyed = λ name d e. (users_lem name d e).1;
}
  where
    below_lem :
        (v : View) (source : Descriptor)
        → InScores (derived_view v source)
        → InScores source × (height source < 1)
    below_lem v (feature_table t) met = (met.1, omega arith)
    below_lem v _ met = absurd (met.1)

    distinct_lem :
        (d e : Descriptor) → InScores d → InScores e → height d < height e → name_of d ≢ name_of e
    distinct_lem (feature_table t) (derived_view v source) m k h = λ e. m (e ∙ k.0)
    distinct_lem (derived_view v source) (derived_view w other) m k h = absurd (omega (arith, h))
    distinct_lem (feature_table t) (feature_table u) m k h = absurd (omega (arith, h))
    distinct_lem (derived_view v source) (feature_table t) m k h = absurd (omega (arith, h))
    distinct_lem d (sliding_view w source) m k h = absurd k
    distinct_lem d (sql_view w) m k h = absurd k
    distinct_lem d (other_descriptor o) m k h = absurd k
    distinct_lem d e m k h = absurd m

-- Only a missing name is raised.
abbrev Conflicts : Error → Type 0
Conflicts e = e ≡ feathub_exception

users-RaisesOnly : RaisesOnly with_users Conflicts
users-RaisesOnly = record {
  of_source = λ t e h. cc;
  of_derive = λ v source t joined e h. cc;
  of_slide = λ v t e h. cc;
  of_query = λ views v e h. cc;
  of_registry = λ name e h. elim (Bool-cases (name == "users")) [
    | inl equal ↦ (let g = rw equal at h in cc)
    | inr differ ↦ (let g = rw differ at h in cc)
  ];
  of_builder = refl;
}

get_table-Done_example :
    Post
      (λ t r. Done with_users InScores height Conflicts scores empty r)
      (λ e r. Conflicts e)
      (get_table with_users 2 scores empty)
unfolding contains
get_table-Done_example =
    get_table-Done with_users InScores height Conflicts scores-IsRanked users-RaisesOnly 2 scores
      empty (refl, (λ e. not_true ((string_eq.eqb_iff "clicks" "scores").1 e))) (omega arith)
      (λ k d busy below. absurd (not_true busy))

-- A view over a registered SQL view: when the SQL view is built, the view over it is built for a
-- temporary view and takes the SQL view's name off the set of names.
abbrev query : Descriptor
query = sql_view (record {
  name = "query";
  sql_statement = "";
  schema = no_schema;
  timestamp_field = none;
  timestamp_format = "epoch";
  bounded = true;
})

abbrev two_views : String → Result Descriptor
two_views name = if name == "query" then ok query else ok (derived_view (view "over" []) query)

query_raises : (get_table (plain two_views ("over" ∷ "query" ∷ [])) 9 query empty).0 ≡ err key_error
unfolding get_table construct create_views joined_tables table_names get insert contains keys
    Descriptor-discrete
query_raises = refl

query_raises_too :
    (get_table (plain two_views ("query" ∷ "over" ∷ [])) 9 query empty).0 ≡ err key_error
unfolding get_table construct create_views joined_tables table_names get insert contains keys
    Descriptor-discrete
query_raises_too = refl

-- Views that join each other.
abbrev each_other : String → Result Descriptor
each_other name =
    if name == "a"
    then ok (derived_view (view "a" (join_from "b" ∷ [])) (table "clicks"))
    else ok (derived_view (view "b" (join_from "a" ∷ [])) (table "clicks"))

circle_raises :
    (get_table
      (plain each_other [])
      9
      (derived_view (view "a" (join_from "b" ∷ [])) (table "clicks"))
      empty).0
    ≡ err recursion_error
unfolding get_table construct create_views joined_tables table_names get insert contains keys
    Descriptor-discrete
circle_raises = refl

-- A view with the name of its source.
same_name_raises :
    (get_table with_users 9 (derived_view (view "clicks" []) (table "clicks")) empty).0
    ≡ err key_error
unfolding get_table construct create_views joined_tables table_names get insert contains keys
same_name_raises = refl

abbrev operations : Operations String
operations = record {
  DataFrame = String;
  from_pandas = λ df. df;
  field_names = λ t. "id" ∷ [];
  join_table_on_key = λ key t names. ok (key ++ t);
  filter_from = λ time t. ok t;
  filter_before = λ time t. ok t;
  drop_columns = λ name t. ok t;
}

abbrev scores_of_users : Result String × BuilderState String
scores_of_users =
    build with_users operations 2 true false scores (some (descriptor (table "users"))) none none
      empty

build-Consistent_example :
    Consistent with_users scores_of_users.1 × (true ≡ true → scores_of_users.1.built_tables ≡ [])
build-Consistent_example =
    build-Consistent with_users operations 2 true false scores (some (descriptor (table "users")))
      none none empty (tt, no_views)
