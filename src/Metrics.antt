-- ===== src/Metrics.antt =====
-- resumable_upload/metrics.py: the counter registry.
pub mod Laws
use Prim.Native.String.{compare}
use Prim.Native.Nat.{Ordering}
use resumable_upload.Prelude.{
  ℕ, ◌+◌, String, ◌<>◌, ◌==◌, Bool, true, false, ◌&&◌, Option, none, some, List, [], ◌∷◌, ◌++◌,
  if◌then◌else◌, or_default, is_empty, join, str,
}
use resumable_upload.Prelude.Dict
use resumable_upload.Prelude.Dict.{Dict}

-- The key of a counter in its family: the labels, sorted.
abbrev pub Labels : Type 0
Labels = List (String × String)

pub record Registry : Type 0 where
  pub counters : Dict (List (Labels × ℕ))
  pub help : Dict String

unfoldable pub same_labels : Labels → Labels → Bool
same_labels [] [] = true
same_labels ((a, b) ∷ l) ((c, d) ∷ m) = (a == c && b == d) && same_labels l m
same_labels _ _ = false

-- bucket.get(key, 0)
unfoldable pub bucket_get : List (Labels × ℕ) → Labels → ℕ
unfolding same_labels
bucket_get [] key = 0
bucket_get ((l, n) ∷ bucket) key = if same_labels l key then n else bucket_get bucket key

-- bucket[key] = value
unfoldable pub bucket_put : List (Labels × ℕ) → Labels → ℕ → List (Labels × ℕ)
unfolding same_labels
bucket_put [] key value = (key, value) ∷ []
bucket_put ((l, n) ∷ bucket) key value =
    if same_labels l key then (l, value) ∷ bucket else (l, n) ∷ bucket_put bucket key value

-- Tuples of texts in Python's order, `a <= b`.
abbrev label_le : String × String → String × String → Bool
label_le (a, b) (c, d) = elim (compare a c) [
  | Ordering.lt ↦ true
  | Ordering.gt ↦ false
  | Ordering.eq ↦ (elim (compare b d) [ Ordering.gt ↦ false | _ ↦ true ])
]

insert_label : String × String → Labels → Labels
insert_label x [] = x ∷ []
insert_label x (y ∷ l) = if label_le x y then x ∷ y ∷ l else y ∷ insert_label x l

-- sorted(labels.items())
unfoldable pub sort_labels : Labels → Labels
unfolding insert_label
sort_labels [] = []
sort_labels (x ∷ l) = insert_label x (sort_labels l)

unfoldable pub register_counter : String → String → Registry → Registry
register_counter name help_text r = record {
  counters = (if Dict.contains r.counters name then r.counters else Dict.put r.counters name []);
  help = Dict.put r.help name help_text;
}

unfoldable pub inc : String → ℕ → Labels → Registry → Registry
unfolding bucket_get bucket_put sort_labels
inc name value labels r =
    let key = sort_labels labels in
    let bucket = or_default (Dict.get r.counters name) [] in
    record r {
      counters = Dict.put r.counters name (bucket_put bucket key (bucket_get bucket key + value));
    }

-- The value that a scrape shows for a counter.
unfoldable pub value_of : Registry → String → Labels → ℕ
unfolding bucket_get sort_labels
value_of r name labels = bucket_get (or_default (Dict.get r.counters name) []) (sort_labels labels)

abbrev label_text : String × String → String
label_text (k, v) = k <> "=\"" <> v <> "\""

label_texts : Labels → List String
label_texts [] = []
label_texts (l ∷ ls) = label_text l ∷ label_texts ls

render_bucket : String → List (Labels × ℕ) → List String
unfolding label_texts
render_bucket name [] = []
render_bucket name ((labels, value) ∷ bucket) =
    (if is_empty labels
      then name <> " " <> str value
      else name <> "{" <> join "," (label_texts labels) <> "} " <> str value)
    ∷ render_bucket name bucket

insert_name : String → List String → List String
insert_name x [] = x ∷ []
insert_name x (y ∷ l) =
    let rest = insert_name x l in elim (compare x y) [ Ordering.gt ↦ y ∷ rest | _ ↦ x ∷ y ∷ l ]

-- sorted(self._counters)
sorted_names : Dict (List (Labels × ℕ)) → List String
unfolding insert_name
sorted_names [] = []
sorted_names ((name, _) ∷ counters) = insert_name name (sorted_names counters)

abbrev help_line : String → Option String → List String
help_line name none = []
help_line name (some text) = if text == "" then [] else ("# HELP " <> name <> " " <> text) ∷ []

render_names : Registry → List String → List String
unfolding render_bucket
render_names r [] = []
render_names r (name ∷ names) =
    help_line name (Dict.get r.help name)
    ++ (("# TYPE " <> name <> " counter")
        ∷ render_bucket name (or_default (Dict.get r.counters name) []))
    ++ render_names r names

unfoldable pub render : Registry → String
unfolding render_names sorted_names
render r = join "\n" (render_names r (sorted_names r.counters)) <> "\n"
