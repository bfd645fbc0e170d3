-- ===== src/Server/Head/Metadata.antt =====
-- The Upload-Metadata header that HEAD writes, read by the parser of the creation.
use text.Mathlib.TextLemmas.{nil-append, cons-append, append_assoc as text_append_assoc}
use resumable_upload.Prelude.{
  ℕ, ◌≤◌, ◌≡◌, ◌≢◌, refl, String, ◌<>◌, ◌==◌, eq_iff, eq_refl, true, false, none, List, [], ◌∷◌,
  ◌++◌, append-nil, append_assoc, arith, Bool-cases, inl, inr, is_some, is_ascii, join, ltb,
  text_length,
}
use resumable_upload.Prelude.Dict
use resumable_upload.Prelude.Dict.{Dict, NodupKeys}
use resumable_upload.Headers.{parsed, decoded, add_entry, add_pair, add_pairs, parse_metadata}
use resumable_upload.Headers.Pieces.{
  is_plain_text, has_no, split-join, AllPieces, plain-has_no, blank, split_once_front,
  split_once_plain, pair_text, strip_pair, front-not_empty, not_empty, has_no-append,
}
use resumable_upload.Server.{Library, Server}
use resumable_upload.Server.Head.{encode_entries}

-- What base64 over UTF-8 promises for a text: what is encoded is decoded again, and the encoded
-- text has no blank and no comma and is empty only for the empty text.
pub record IsEncoded (l : Library) (t : String) : Type 0 where
  pub decode-encode : l.b64decode_text (l.b64encode_text t) ≡ decoded t
  pub encode-plain : is_plain_text (l.b64encode_text t) ≡ true
  pub encode-empty : l.b64encode_text t ≡ "" → t ≡ ""

-- A key that Upload-Metadata can carry.
abbrev pub IsKey : String → Type 0
IsKey k = (is_plain_text k ≡ true) × (k ≢ "") × (is_ascii k ≡ true)

abbrev pub AllEntries : Library → Dict String → Type 0
AllEntries l [] = Unit
AllEntries l ((k, t) ∷ m) = (IsKey k × IsEncoded l t) × AllEntries l m

put_fresh :
    (d : Dict String) (k t : String) → Dict.get d k ≡ none → Dict.put d k t ≡ d ++ (k, t) ∷ []
unfolding Dict.put Dict.get
put_fresh [] k t fresh = refl
put_fresh ((j, u) ∷ d) k t fresh = elim (Bool-cases (j == k)) [
  | inl e ↦ cc (rw e at fresh)
  | inr e ↦ rw (e, put_fresh d k t (rw e at fresh)) refl
]

get_there : (d m : Dict String) (k t : String) → is_some (Dict.get (d ++ (k, t) ∷ m) k) ≡ true
unfolding Dict.get
get_there [] m k t = rw (eq_refl k) refl
get_there ((j, u) ∷ d) m k t = elim (Bool-cases (j == k)) [
  | inl e ↦ rw e refl
  | inr e ↦ rw e (get_there d m k t)
]

nodup-fresh : (d m : Dict String) (k t : String) → NodupKeys (d ++ (k, t) ∷ m) → Dict.get d k ≡ none
unfolding Dict.get
nodup-fresh [] m k t nodup = refl
nodup-fresh ((j, u) ∷ d) m k t (once, nodup) = elim (Bool-cases (j == k)) [
  | inl e ↦ let once' = rw ((eq_iff j k).0 e) at once in cc (get_there d m k t, once')
  | inr e ↦ rw e (nodup-fresh d m k t nodup)
]

module _ (v : Server) where
  add_pair_lem :
      (k t : String) (d : Dict String)
      → IsKey k
      → IsEncoded v.library t
      → Dict.get d k ≡ none
      → add_pair v.library.b64decode_text (pair_text k (v.library.b64encode_text t)) d
        ≡ parsed (Dict.put d k t)
  unfolding add_pair add_entry
  add_pair_lem k t d (plain, some_key, ascii) B fresh =
      let e = v.library.b64encode_text t in
      elim (Bool-cases (e == "")) [
        | inl empty ↦
            rw (empty, not_empty k some_key, split_once_plain k plain, ascii, fresh)
              (rw (B.encode-empty ((eq_iff e "").0 empty)) refl)
        | inr full ↦
            rw
              (
                full,
                front-not_empty k (" " <> e) some_key,
                cons-append blank "" e,
                nil-append e,
                split_once_front k e plain,
                ascii,
                fresh,
                full,
                B.decode-encode,
              )
              refl
      ]

  add_pairs_lem :
      (m d : Dict String)
      → AllEntries v.library m
      → NodupKeys (d ++ m)
      → add_pairs v.library.b64decode_text (encode_entries v m) d ≡ parsed (d ++ m)
  unfolding add_pairs encode_entries
  add_pairs_lem [] d keys nodup = rw append-nil refl
  add_pairs_lem ((k, t) ∷ m) d ((key, B), keys) nodup =
      let fresh = nodup-fresh d m k t nodup in
      rw
        (
          add_pairs,
          strip_pair k (v.library.b64encode_text t) key.0 key.1 B.encode-plain,
          add_pair_lem k t d key B fresh,
          put_fresh d k t fresh,
          add_pairs_lem m (d ++ (k, t) ∷ []) keys (rw append_assoc nodup),
          append_assoc,
        )
        refl

  encode_entries-AllPieces :
      (m : Dict String) → AllEntries v.library m → AllPieces (encode_entries v m)
  unfolding encode_entries has_no
  encode_entries-AllPieces [] keys = tt
  encode_entries-AllPieces ((k, t) ∷ m) ((key, B), keys) = (
    has_no-append b',' k (" " <> v.library.b64encode_text t) (plain-has_no k key.0) (
        has_no-append b',' " " (v.library.b64encode_text t) refl
          (plain-has_no (v.library.b64encode_text t) B.encode-plain)),
    encode_entries-AllPieces m keys,
  )

  join_front : (k x : String) (ps : List String) → k ≢ "" → (join "," ((k <> x) ∷ ps) == "") ≡ false
  unfolding join
  join_front k x [] some_key = front-not_empty k x some_key
  join_front k x (q ∷ ps) some_key =
      rw (text_append_assoc k x ("," <> join "," (q ∷ ps)))
        (front-not_empty k (x <> "," <> join "," (q ∷ ps)) some_key)

  join-not_empty :
      (k t : String) (m : Dict String)
      → k ≢ ""
      → (join "," (encode_entries v ((k, t) ∷ m)) == "") ≡ false
  unfolding encode_entries
  join-not_empty k t m some_key =
      join_front k (" " <> v.library.b64encode_text t) (encode_entries v m) some_key

  -- The Upload-Metadata header that HEAD writes for the metadata of an upload is read by the parser
  -- of the creation as the same metadata, in the same order: for keys that are not empty, in ASCII,
  -- without blanks and commas and each of them once, with a base64 that keeps its promises on the
  -- values, and as long as the header is within the parser's limit.
  pub parse_metadata-encode_entries :
      (m : Dict String) (max_size : ℕ)
      → AllEntries v.library m
      → NodupKeys m
      → text_length (join "," (encode_entries v m)) ≤ max_size
      → parse_metadata v.library.b64decode_text (join "," (encode_entries v m)) max_size ≡ parsed m
  unfolding parse_metadata encode_entries join
  parse_metadata-encode_entries [] max_size keys nodup fits = refl
  parse_metadata-encode_entries ((k, t) ∷ m) max_size (key, keys) nodup fits =
      let pieces = encode_entries-AllPieces ((k, t) ∷ m) (key, keys) in
      let size = text_length (join "," (encode_entries v ((k, t) ∷ m))) in
      let short : ltb max_size size ≡ false = ground arith in
      rw
        (
          join-not_empty k t m key.0.1,
          short,
          split-join (k <> " " <> v.library.b64encode_text t) (encode_entries v m) pieces,
        )
        (add_pairs_lem ((k, t) ∷ m) [] (key, keys) nodup)
