-- ===== src/Server/Final/Safety.antt =====
-- Which ids a final upload may name.
use resumable_upload.Prelude.{
  ◌≡◌, String, ◌<>◌, true, List, [], ◌∷◌, Bool-cases, inl, inr, starts_with, text_drop, text_length,
  is_empty, words, split_once, Option-cases,
}
use resumable_upload.Prelude.Dict.{Dict}
use resumable_upload.Headers.{validate_upload_id}
use resumable_upload.Headers.Ids.{is_id_text, validate_upload_id-is_id_text}
use resumable_upload.Server.{Server, Context}
use resumable_upload.Server.Checked.{accept, Checked-cases}
use resumable_upload.Server.Create.{plan_metadata, expiry_time}
use resumable_upload.Server.Final.{
  CreateFinalPlan, path_of, partial_id, parse_partial_ids, plan_create_final,
}

-- Each of the ids is safe as a file name.
abbrev pub AreSafe : List String → Type 0
AreSafe [] = Unit
AreSafe (id ∷ ids) = (is_id_text id ≡ true) × AreSafe ids

partial_id-is_id_text :
    (v : Server) (url id : String) → partial_id v url ≡ accept id → is_id_text id ≡ true
unfolding partial_id
partial_id-is_id_text v url id e =
    let prefix = v.base_path <> "/" in
    let path = path_of v url in
    let named = text_drop (text_length prefix) path in
    elim (Bool-cases (starts_with path prefix)) [
      | inr h ↦ cc (rw h at e)
      | inl h ↦ elim (Bool-cases (validate_upload_id named)) [
        | inr k ↦ cc (rw (h, k) at e)
        | inl k ↦
            let same : named ≡ id = cc (rw (h, k) at e) in
            rw (← same) (validate_upload_id-is_id_text named k)
      ]
    ]

parse_partial_ids-AreSafe :
    (v : Server) (urls ids : List String) → parse_partial_ids v urls ≡ accept ids → AreSafe ids
unfolding parse_partial_ids
parse_partial_ids-AreSafe v [] ids e = let same : [] ≡ ids = cc e in rw (← same) tt
parse_partial_ids-AreSafe v (url ∷ urls) ids e = elim (Checked-cases (partial_id v url)) [
  | inr (r, h) ↦ cc (rw h at e)
  | inl (id, h) ↦ elim (Checked-cases (parse_partial_ids v urls)) [
    | inr (r, k) ↦ cc (rw (h, k) at e)
    | inl (rest, k) ↦
        let same : id ∷ rest ≡ ids = cc (rw (h, k) at e) in
        rw (← same) (partial_id-is_id_text v url id h, parse_partial_ids-AreSafe v urls rest k)
  ]
]

-- Whatever the Upload-Concat header of a POST holds, every partial upload that the plan of an
-- accepted final names has an id without a separator of a path and a dot.
pub plan_create_final-AreSafe :
    (v : Server) (c : Context) (concat_header : String) (headers : Dict String)
    (plan : CreateFinalPlan)
    → plan_create_final v c concat_header headers ≡ accept plan
    → AreSafe plan.partial_ids
unfolding plan_create_final
plan_create_final-AreSafe v c concat_header headers plan e =
    elim (Option-cases (split_once b';' concat_header)) [
      | inl h ↦ cc (rw h at e)
      | inr ((kind, urls), h) ↦ elim (Checked-cases (parse_partial_ids v (words urls))) [
        | inr (r, k) ↦ cc (rw (h, k) at e)
        | inl (ids, k) ↦ elim (Bool-cases (is_empty ids)) [
          | inl empty ↦ cc (rw (h, k, empty) at e)
          | inr some_ids ↦ elim (Checked-cases (plan_metadata v headers)) [
            | inr (r, l) ↦ cc (rw (h, k, some_ids, l) at e)
            | inl (metadata, l) ↦
                let made : CreateFinalPlan = record {
                  final_id = c.uuid;
                  partial_ids = ids;
                  metadata = metadata;
                  expires_at = expiry_time v c.now;
                } in
                let same : made ≡ plan = cc (rw (h, k, some_ids, l) at e) in
                rw (← same) (parse_partial_ids-AreSafe v (words urls) ids k)
          ]
        ]
      ]
    ]
