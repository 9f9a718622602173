-- ===== src/Http/Cursor/RoundTrip.antt =====
-- internal/adapters/httpapi/cursor.go: a cursor is read back.
use junglegaming_backend_cha.Base.{
  ◌≡◌, refl, sym, arith, ℕ, false, List, [], ◌∷◌, ◌++◌, some, ◌==◌, nat_eq, In, inl, inr,
}
use junglegaming_backend_cha.AppErr.{ok}
use junglegaming_backend_cha.Types.{Uuid, Time}
use junglegaming_backend_cha.Http.Cursor.{
  Texts, bar, encode_cursor, split_bar, or_unreadable, parts_of, decode_cursor,
}

-- What the libraries document: what they write they read back, nothing decodes to nothing, and the
-- text of an instant has no bar.
pub record IsReadBack (lib : Texts) : Type 0 where
  pub base64 : (b : List ℕ) → lib.decode_base64 (lib.encode_base64 b) ≡ some b
  pub nothing : lib.decode_base64 [] ≡ some []
  pub time : (t : Time) → lib.time_parse (lib.time_text t) ≡ some t
  pub no_bar : (t : Time) → ¬ In bar (lib.time_text t)
  pub uuid : (id : Uuid) → lib.uuid_read (lib.uuid_bytes id) ≡ some id

split_bar-first : (xs ys : List ℕ) → ¬ In bar xs → split_bar (xs ++ bar ∷ ys) ≡ some (xs, ys)
unfolding split_bar
split_bar-first [] ys h = refl
split_bar-first (x ∷ xs) ys h =
    let ih = split_bar-first xs ys (λ m. h (inr m)) in
    let other : ¬ (x ≡ bar) = λ e. h (inl (sym e)) in
    let passed : (x == bar) ≡ false = ground (arith, other) in rw (passed, ih) refl

module _ (lib : Texts) (faithful : IsReadBack lib) where
  -- The cursor in a text that is not empty.
  decode_encoded :
      (raw : List ℕ) (xs ys : List ℕ) (created_at : Time) (id : Uuid)
      → lib.decode_base64 raw ≡ some (xs ++ bar ∷ ys)
      → split_bar (xs ++ bar ∷ ys) ≡ some (xs, ys)
      → lib.time_parse xs ≡ some created_at
      → lib.uuid_read ys ≡ some id
      → decode_cursor lib raw ≡ ok (some (record { created_at = created_at; id = id }))
  unfolding decode_cursor or_unreadable parts_of
  decode_encoded [] [] ys created_at id d s t u = absurd (ground (arith, faithful.nothing, d))
  decode_encoded [] (x ∷ xs) ys created_at id d s t u = absurd (ground (arith, faithful.nothing, d))
  decode_encoded (c ∷ cs) xs ys created_at id d s t u = rw d (rw s (rw (t, u) refl))

  -- A cursor is read back from its text, if the libraries read back what they write, nothing decodes
  -- to nothing and the text of an instant has no bar.
  pub decode-encode_cursor :
      (created_at : Time) (id : Uuid)
      → decode_cursor lib (encode_cursor lib created_at id)
        ≡ ok (some (record { created_at = created_at; id = id }))
  unfolding encode_cursor
  decode-encode_cursor created_at id =
      decode_encoded (encode_cursor lib created_at id) (lib.time_text created_at)
        (lib.uuid_bytes id) created_at id
        (faithful.base64 (lib.time_text created_at ++ bar ∷ lib.uuid_bytes id))
        (split_bar-first (lib.time_text created_at) (lib.uuid_bytes id)
          (faithful.no_bar created_at))
        (faithful.time created_at) (faithful.uuid id)
