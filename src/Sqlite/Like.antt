-- ===== src/Sqlite/Like.antt =====
-- The LIKE operator of SQLite, which `find_pending_finals_for_partial` uses: `%` stands for any
-- text, `_` for one character, and ASCII letters match in either case.
use Prim.Native.Char.{code}
use Prim.Native.String.{◌∷◌ as ◌⊳◌}
use resumable_upload.Prelude.{
  ℕ, String, ◌+◌, ◌==◌, ◌≡◌, refl, Bool, true, false, ◌&&◌, ◌||◌, if◌then◌else◌, eqb, leb,
}

unfoldable pub fold_case : ℕ → ℕ
fold_case c = if leb b'A' c && leb c b'Z' then c + 32 else c

unfoldable pub like : String → String → Bool
unfolding fold_case
like String.[] t = t == ""
like (c ⊳ p) String.[] = eqb (code c) b'%' && like p ""
like (c ⊳ p) (d ⊳ t) = elim (eqb (code c) b'%') [
  | true ↦ like p (d ⊳ t) || like (c ⊳ p) t
  | false ↦ elim (eqb (code c) b'_' || eqb (fold_case (code c)) (fold_case (code d))) [
    | true ↦ like p t
    | false ↦ false
  ]
]

finds : like "% ab %" " xy ab " ≡ true
unfolding like
finds = refl
