-- ===== src/Outbox/Sanitized.antt =====
-- The length of the errors that pkg/service/notification.go stores.
use Prim.Native.Nat.{min}
use hsync_server.Prelude.{
  List, ◌∷◌, Bool, true, ℕ, ◌≤◌, ◌<◌, ◌≡◌, Option, none, some, [], Text, length, length-take, arith,
  Bool-cases, Option-cases, inl, inr, refl, ltb, text_eqb, All, false,
}
use hsync_server.GoStrings.{trim_space}
use hsync_server.GoStrings.Ascii.{
  is_ascii, AreAscii, is_ascii-trim_space, is_ascii-replace_first, AreAscii-fields, is_ascii-join,
}
use hsync_server.GoStrings.Words.{fields, join, trim}
use hsync_server.Outbox.Redacts.{redact_keys_end, redact_assignments_end}
use hsync_server.Outbox.Sanitize.{
  Url, webhook_url, sanitize_webhook_error, sanitize_fields, sanitize_field, clean_url, quotes_url,
  sensitive_keys, shorten, redact_words, finish_error, after_webhook, sanitize_notification_error,
}

-- No error, or an error whose text is ASCII.
abbrev pub is_ascii_error : Option Text → Bool
is_ascii_error none = true
is_ascii_error (some message) = is_ascii message

min_fits : (m n : ℕ) → min m n ≤ m
min_fits m n = ground arith

ltb_fits : (m n : ℕ) → ltb m n ≡ false → n ≤ m
ltb_fits m n h = ground arith

shorten_fits : (s : Text) → length (shorten s) ≤ 240
unfolding shorten
shorten_fits s = elim (Bool-cases (ltb 240 (length s))) [
  | inl long ↦ rw (long, length-take 240 s) (min_fits 240 (length s))
  | inr short ↦ rw (short) (ltb_fits 240 (length s) short)
]

sensitive_keys-nonempty : All (λ key. 0 < length key) sensitive_keys
sensitive_keys-nonempty = ground arith

-- net/url, and strings.ToLower on texts that are not ASCII; URL.String gives ASCII, as it escapes
-- all other bytes.
module _ (parse_url : Text → Option Url) (url_text : Url → Text)
    (escaped : (u : Url) → is_ascii (url_text u) ≡ true) (lower : Text → Text) where
  webhook_url-is_ascii :
      (s clean : Text) → webhook_url parse_url url_text s ≡ some clean → is_ascii clean ≡ true
  unfolding webhook_url
  webhook_url-is_ascii s clean h = elim (Option-cases (parse_url s)) [
    | inl bad ↦ absurd (ground arith)
    | inr (u, fine) ↦ ground (arith, escaped (clean_url u))
  ]

  sanitize_field-is_ascii :
      (s : Text) → is_ascii s ≡ true → is_ascii (sanitize_field parse_url url_text s) ≡ true
  unfolding sanitize_field trim
  sanitize_field-is_ascii s h =
      let trimmed = trim quotes_url s in
      elim (Option-cases (webhook_url parse_url url_text trimmed)) [
        | inl plain ↦ rw (sanitize_field, plain) h
        | inr (clean, e) ↦
            rw (sanitize_field, e)
              (is_ascii-replace_first s trimmed clean h (webhook_url-is_ascii trimmed clean e))
      ]

  sanitize_fields-AreAscii :
      (ws : List Text) → AreAscii ws → AreAscii (sanitize_fields parse_url url_text ws)
  unfolding sanitize_fields
  sanitize_fields-AreAscii [] a = tt
  sanitize_fields-AreAscii (w ∷ ws) a =
      (sanitize_field-is_ascii w a.0, sanitize_fields-AreAscii ws a.1)

  webhook_ends :
      (message : Text)
      → is_ascii message ≡ true
      → (out : Text) × (sanitize_webhook_error parse_url url_text lower message ≡ some out)
        × (is_ascii out ≡ true)
  unfolding sanitize_webhook_error
  webhook_ends message a =
      let s = trim_space message in
      let ascii = is_ascii-trim_space message a in
      elim (Bool-cases (text_eqb s [])) [
        | inl empty ↦ ([], rw (empty) refl, unfold is_ascii in refl)
        | inr full ↦ elim (Option-cases (webhook_url parse_url url_text s)) [
          | inr (clean, e) ↦ (clean, rw (full, e) refl, webhook_url-is_ascii s clean e)
          | inl plain ↦
              let words = sanitize_fields parse_url url_text (fields s) in
              let (out, e, o) =
                redact_keys_end lower sensitive_keys (join words) sensitive_keys-nonempty (
                  is_ascii-join words
                    (sanitize_fields-AreAscii (fields s) (AreAscii-fields s ascii))) in
              (out, rw (full, plain, e) refl, o)
        ]
      ]

  -- No error, and every error whose text is ASCII, is given a text of at most 240 bytes, whatever
  -- the parser of addresses answers, if it prints addresses in ASCII.
  pub sanitize_ends :
      (error : Option Text)
      → is_ascii_error error ≡ true
      → (out : Text) × (sanitize_notification_error lower parse_url url_text error ≡ some out)
        × length out ≤ 240
  unfolding sanitize_notification_error after_webhook finish_error
  sanitize_ends none a = ([], refl, ground arith)
  sanitize_ends (some message) a =
      let (web, e, ascii) = webhook_ends message a in
      let (plain, d, o) = redact_assignments_end lower web ascii in
      (
        shorten (trim_space (redact_words lower plain)),
        rw (e, d) refl,
        shorten_fits (trim_space (redact_words lower plain)),
      )
