-- ===== src/Sqlite/Pending.antt =====
-- `find_pending_finals_for_partial` misses no final: the LIKE pattern matches wherever the id
-- stands in the list.
use Prim.Native.Char.{Char, code}
use Prim.Native.String.{◌∷◌ as ◌⊳◌, char_at}
use text.Mathlib.TextLemmas.{nil-append, cons-append, append_assoc}
use resumable_upload.Prelude.{
  ◌≡◌, refl, String, ◌<>◌, ◌==◌, eq_iff, Bool, true, false, ◌||◌, some, List, [], ◌∷◌, eqb, join,
  arith, Bool-cases, inl, inr,
}
use resumable_upload.Prelude.Dict
use resumable_upload.Prelude.Dict.{Dict}
use resumable_upload.Exec.{ok}
use resumable_upload.Sqlite.{Row, Db}
use resumable_upload.Sqlite.Like.{like}
use resumable_upload.Sqlite.Concat.{is_pending_on, select_ids, find_pending_finals_for_partial}

-- x in l
abbrev pub is_in : String → List String → Bool
is_in x [] = false
is_in x (y ∷ l) = y == x || is_in x l

or_true : (a b : Bool) → b ≡ true → (a || b) ≡ true
or_true true b h = refl
or_true false b h = h

or_false : (a : Bool) → (a || false) ≡ true → a ≡ true
or_false true h = refl
or_false false h = h

module _ (c : Char) (percent : eqb (code c) b'%' ≡ true) where
  -- `%` matches nothing, and skips a character.
  like-nothing : (p t : String) → like p t ≡ true → like (c ⊳ p) t ≡ true
  unfolding like
  like-nothing p String.[] h = ground arith
  like-nothing p (d ⊳ t) h = rw (percent, like, h) refl

  like-skip : (p t : String) (d : Char) → like (c ⊳ p) t ≡ true → like (c ⊳ p) (d ⊳ t) ≡ true
  unfolding like
  like-skip p t d h = rw (percent, like) (or_true (like p (d ⊳ t)) (like (c ⊳ p) t) h)

  like-skip_all : (p s t : String) → like (c ⊳ p) t ≡ true → like (c ⊳ p) (s <> t) ≡ true
  like-skip_all p String.[] t h = rw (nil-append t) h
  like-skip_all p (d ⊳ s) t h =
      rw (cons-append d s t) (like-skip p (s <> t) d (like-skip_all p s t h))

-- A character of the pattern matches itself.
like-same : (c : Char) (p t : String) → like p t ≡ true → like (c ⊳ p) (c ⊳ t) ≡ true
unfolding like
like-same c p t h = elim (Bool-cases (eqb (code c) b'%')) [
  | inl percent ↦
      rw (percent, like) (or_true (like p (c ⊳ t)) (like (c ⊳ p) t) (like-nothing c percent p t h))
  | inr other ↦ rw (other, like) (ground arith)
]

like-same_all : (s p t : String) → like p t ≡ true → like (s <> p) (s <> t) ≡ true
like-same_all String.[] p t h = rw (nil-append p, nil-append t) h
like-same_all (c ⊳ s) p t h =
    rw (cons-append c s p, cons-append c s t)
      (like-same c (s <> p) (s <> t) (like-same_all s p t h))

-- `%` at the end matches any rest.
like-rest : (t : String) → like "%" t ≡ true
unfolding like
like-rest String.[] = refl
like-rest (c ⊳ t) = or_true (like "" (c ⊳ t)) (like "%" t) (like-rest t)

abbrev percent_sign : Char
percent_sign = char_at "%" 0

-- The list, after the blank in front of it and with the rest behind it.
like-here : (pid rest : String) → like (" " <> pid <> " %") (" " <> pid <> " " <> rest) ≡ true
like-here pid rest =
    like-same_all " " (pid <> " %") (pid <> " " <> rest)
      (like-same_all pid " %" (" " <> rest) (like-same_all " " "%" rest (like-rest rest)))

-- The pattern's `%` takes what stands before the blank.
like-after :
    (pid s t : String)
    → like (percent_sign ⊳ (" " <> pid <> " %")) t ≡ true
    → like (percent_sign ⊳ (" " <> pid <> " %")) (s <> t) ≡ true
like-after pid s t h = like-skip_all percent_sign refl (" " <> pid <> " %") s t h

abbrev pattern_of : String → String
pattern_of pid = percent_sign ⊳ (" " <> pid <> " %")

like-begin : (pid rest : String) → like (pattern_of pid) (" " <> pid <> " " <> rest) ≡ true
like-begin pid rest =
    like-nothing percent_sign refl (" " <> pid <> " %") (" " <> pid <> " " <> rest)
      (like-here pid rest)

like-join :
    (pid : String) (ids : List String)
    → is_in pid ids ≡ true
    → like (pattern_of pid) (" " <> join " " ids <> " ") ≡ true
unfolding join
like-join pid [] h = ground arith
like-join pid (x ∷ []) h =
    let same : x ≡ pid = (eq_iff x pid).0 (or_false (x == pid) h) in rw same (like-begin pid "")
like-join pid (x ∷ y ∷ ids) h =
    rw (append_assoc x (" " <> join " " (y ∷ ids)) " ", append_assoc " " (join " " (y ∷ ids)) " ")
      (elim (Bool-cases (x == pid)) [
        | inl same ↦ rw ((eq_iff x pid).0 same) (like-begin pid (join " " (y ∷ ids) <> " "))
        | inr other ↦
            let rest = " " <> join " " (y ∷ ids) <> " " in
            like-after pid " " (x <> rest)
              (like-after pid x rest (like-join pid (y ∷ ids) (rw other at h)))
      ])

select_ids_complete :
    (test : Row → Bool) (rows : Dict Row) (id : String) (r : Row)
    → Dict.get rows id ≡ some r
    → test r ≡ true
    → is_in id (select_ids test rows) ≡ true
unfolding select_ids Dict.get
select_ids_complete test [] id r found good = ground arith
select_ids_complete test ((j, q) ∷ rows) id r found good = elim (Bool-cases (j == id)) [
  | inl same ↦
      let is_r : q ≡ r = cc (rw same at found) in
      let good' : test q ≡ true = rw is_r good in rw (good', same) refl
  | inr other ↦
      let later = select_ids_complete test rows id r (rw other at found) good in
      elim (Bool-cases (test q)) [
        | inl chosen ↦ rw (chosen, other) later
        | inr skipped ↦ rw skipped later
      ]
]

-- Every unfinished final whose list of partials holds the id is found, whatever characters the id
-- consists of: the pattern of LIKE matches wherever the id stands in the list.
pub find_pending_finals_for_partial_complete :
    (s : Db) (pid id : String) (r : Row) (ids : List String)
    → Dict.get s.rows id ≡ some r
    → r.completed ≡ false
    → r.concat_partial_ids ≡ some (join " " ids)
    → is_in pid ids ≡ true
    → (finals : List String) × (find_pending_finals_for_partial s pid ≡ ok finals)
      × (is_in id finals ≡ true)
unfolding find_pending_finals_for_partial is_pending_on
find_pending_finals_for_partial_complete s pid id r ids found unfinished listed here = (
  select_ids (is_pending_on pid) s.rows,
  refl,
  select_ids_complete (is_pending_on pid) s.rows id r found (
      rw (listed, unfinished, cons-append percent_sign " " (pid <> " %")) (like-join pid ids here)),
)
