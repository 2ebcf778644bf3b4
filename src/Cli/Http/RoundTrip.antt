-- ===== src/Cli/Http/RoundTrip.antt =====
-- The URL of an endpoint is read back as the endpoint
-- (crates/infractl-cli/src/commands/service.rs).
use Prim.Native.String.{[], ◌∷◌}
use text.Mathlib.TextLemmas.{nil-append, cons-append}
use btc_infra_tools.Base.{
  ℕ, ◌+◌, ◌*◌, ◌<◌, ◌≤◌, ◌≡◌, refl, String, Char, code, true, false, arith, eqb, ◌∙◌,
}
use btc_infra_tools.Base.Splits.{Free, strip_prefix-append, split_once-append}
use btc_infra_tools.Base.Text.{◌⧺◌, show_ℕ}
use btc_infra_tools.Base.Text.Decimal.{is_digit, Digits, Number, show_ℕ-Number, read-show_ℕ}
use btc_infra_tools.Base.Result.{ok}
use btc_infra_tools.Cli.Http.{
  u16_digits, u16_number, parse_u16, authority_of, parse_authority, parse_http_url,
}

digit_step :
    (d n : ℕ) (c : Char) (rest : String)
    → d < 10
    → code c ≡ d + 48
    → n * 10 + d ≤ 65535
    → u16_digits (c ∷ rest) n ≡ u16_digits rest (n * 10 + d)
unfolding u16_digits
digit_step d n c rest small at most = ground arith

sign-not_digit : (c : Char) → is_digit c ≡ true → eqb (code c) 43 ≡ false
sign-not_digit c h = ground arith

parse_u16-Number : (s : String) → Number s → parse_u16 s ≡ u16_digits s 0
unfolding parse_u16 u16_number
parse_u16-Number [] h = absurd h
parse_u16-Number (c ∷ s) h = rw (sign-not_digit c h.0) refl

pub parse_u16-show_ℕ : (n : ℕ) → n ≤ 65535 → parse_u16 (show_ℕ n) ≡ ok n
unfolding u16_digits
parse_u16-show_ℕ n h =
    parse_u16-Number (show_ℕ n) (show_ℕ-Number n) ∙ read-show_ℕ u16_digits 65535 digit_step n h

slash-not_digit : (c : Char) → is_digit c ≡ true → eqb (code c) 47 ≡ false
slash-not_digit c h = ground arith

Digits-Free : (s : String) → Digits s → Free "/" s
Digits-Free [] h = tt
Digits-Free (c ∷ s) h = (slash-not_digit c h.0, Digits-Free s h.1)

Number-Free : (s : String) → Number s → Free "/" s
Number-Free [] h = absurd h
Number-Free (c ∷ s) h = Digits-Free (c ∷ s) h

Free-append : (c : Char) (s t : String) → Free c s → Free c t → Free c (s ⧺ t)
Free-append c [] t hs ht = rw nil-append ht
Free-append c (d ∷ s) t hs ht = rw cons-append (hs.0, Free-append c s t hs.1 ht)

pub authority-Free :
    (host : String) (port : ℕ) → Free "/" host → Free "/" (host ⧺ (":" ⧺ show_ℕ port))
authority-Free host port h =
    Free-append "/" host (":" ⧺ show_ℕ port) h
      (rw (cons-append, nil-append) (refl, Number-Free (show_ℕ port) (show_ℕ-Number port)))

parse_authority-authority :
    (url host : String) (port : ℕ)
    → Free ":" host
    → port ≤ 65535
    → parse_authority url (host ⧺ (":" ⧺ show_ℕ port)) ≡ ok (host, port)
unfolding parse_authority
parse_authority-authority url host port h small =
    rw (parse_authority, split_once-append host ":" "" (show_ℕ port) h, parse_u16-show_ℕ port small)
      refl

-- The URL of an endpoint is read back as the endpoint, where its host has no `:` and no `/`, its port
-- is a number of 16 bits, and its path begins with `/`.
pub parse_http_url-authority_of :
    (host rest : String) (port : ℕ)
    → Free ":" host
    → Free "/" host
    → port ≤ 65535
    → parse_http_url (
        "http://"
        ⧺ authority_of (record { host = host; port = port; path = "/" ⧺ rest })
        ⧺ "/"
        ⧺ rest)
      ≡ ok (record { host = host; port = port; path = "/" ⧺ rest })
unfolding parse_http_url authority_of
parse_http_url-authority_of host rest port no_colon no_slash small =
    rw
      (
        parse_http_url,
        strip_prefix-append "http://" ((host ⧺ (":" ⧺ show_ℕ port)) ⧺ ("/" ⧺ rest)),
        split_once-append (host ⧺ (":" ⧺ show_ℕ port)) "/" "" rest
            (authority-Free host port no_slash),
        parse_authority-authority _ host port no_colon small,
      )
      refl
