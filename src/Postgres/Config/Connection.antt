-- ===== src/Postgres/Config/Connection.antt =====
-- ToConnectionString (pkg/postgres/config.go). `int(d.Seconds())`, which goes through float64, is a
-- parameter.
use mathlib.Core.List.{append_assoc}
use gochoreo.Common.{
  ℕ, suc, ◌+◌, ◌/◌, ◌%◌, ◌≤◌, ◌<◌, ◌≡◌, ◌≢◌, inl, inr, not, ◌&&◌, ◌||◌, [], ◌∷◌, ◌++◌, arith,
  if◌then◌else◌, is_empty, is_empty-false, ltb, leb, Map, All, Bool-cases, if-eq-left, if-eq-right,
  ap, sym, ◌∙◌, subst,
}
use gochoreo.Common.Int.{ℤ, pos, ltb_ℤ}
use gochoreo.Common.Word.{pattern64, mod64}
use gochoreo.Text.{Text, codes}
use gochoreo.Text.Decimal.{format_ℕ, IsDigit, format_ℕ-IsDigit, format_ℕ_single}
use gochoreo.Postgres.Config.{Libraries, Config}

-- U+FFFD, for what is not a character.
abbrev replacement : Text
replacement = 0xEF ∷ 0xBF ∷ 0xBD ∷ []

-- UTF-8.
unfoldable pub encode_rune : ℕ → Text
encode_rune n =
    if ltb n 0x80
    then n ∷ []
    else if ltb n 0x800
    then (0xC0 + n / 64) ∷ (0x80 + n % 64) ∷ []
    else if (leb 0xD800 n && leb n 0xDFFF) || ltb 0x10FFFF n
    then replacement
    else if ltb n 0x10000
    then (0xE0 + n / 4096) ∷ (0x80 + (n / 64) % 64) ∷ (0x80 + n % 64) ∷ []
    else (0xF0 + n / 262144)
      ∷ (0x80 + (n / 4096) % 64)
      ∷ (0x80 + (n / 64) % 64)
      ∷ (0x80 + n % 64)
      ∷ []

-- `string(rune(n))`: the conversion keeps 32 bits, and a negative rune is no character, like one
-- above 0x10FFFF.
unfoldable pub rune_text : ℤ → Text
rune_text n = encode_rune (pattern64 n % 4294967296)

-- `if c.X != "" { connString += "x=" + c.X + " " }`
abbrev pub setting : Text → Text → Text
setting name value = if not (is_empty value) then name ++ (value ++ codes " ") else []

unfoldable pub custom_settings : Map Text Text → Text
custom_settings [] = []
custom_settings ((key, value) ∷ m) =
    key ++ (codes "=" ++ (value ++ (codes " " ++ custom_settings m)))

module _ {l : Libraries} where
  unfoldable pub port_setting : Config l → Text
  port_setting c =
      if ltb_ℤ (pos 0) c.port then codes "port=" ++ (rune_text c.port ++ codes " ") else []

module _ {l : Libraries} (int_seconds : ℤ → ℤ) where
  abbrev pub timeout_setting : Config l → Text
  timeout_setting c =
      if ltb_ℤ (pos 0) c.connect_timeout
      then codes "connect_timeout=" ++ (rune_text (int_seconds c.connect_timeout) ++ codes " ")
      else []

  -- What comes behind the port.
  abbrev pub other_settings : Config l → Text
  other_settings c =
      setting (codes "dbname=") c.database
      ++ (setting (codes "user=") c.user
          ++ (setting (codes "password=") c.password
              ++ ((codes "sslmode=" ++ (c.ssl_mode ++ codes " "))
                  ++ (setting (codes "sslcert=") c.ssl_cert
                      ++ (setting (codes "sslkey=") c.ssl_key
                          ++ (setting (codes "sslrootcert=") c.ssl_root_cert
                              ++ (setting (codes "sslservername=") c.ssl_server_name
                                  ++ (timeout_setting c
                                      ++ (setting (codes "application_name=") c.application_name
                                          ++ (setting (codes "search_path=") c.search_path
                                              ++ (setting (codes "timezone=") c.timezone
                                                  ++ custom_settings c.custom_params)))))))))))

  unfoldable pub to_connection_string : Config l → Text
  to_connection_string c =
      if not (is_empty c.database_url)
      then c.database_url
      else setting (codes "host=") c.host ++ (port_setting c ++ other_settings c)

-- The first byte of a text of digits is a digit.
first_digit : (c : ℕ) (s : Text) (n : ℕ) → c ∷ s ≡ format_ℕ n → (b'0' ≤ c) × (c ≤ b'9')
first_digit c s n e = (subst (All IsDigit) (sym e) (format_ℕ-IsDigit n)).0

-- A character above ASCII begins with a byte above the digits.
abbrev BeginsHigh : Text → Type 0
BeginsHigh [] = ⊥
BeginsHigh (c ∷ s) = 0xC0 ≤ c

encode_rune-BeginsHigh : (n : ℕ) → 0x80 ≤ n → BeginsHigh (encode_rune n)
unfolding encode_rune
encode_rune-BeginsHigh n h = elim (Bool-cases (ltb n 0x80)) [
  | inl low ↦ absurd (ground (arith, h))
  | inr _ ↦ elim (Bool-cases (ltb n 0x800)) [
    | inl two ↦ ground arith
    | inr _ ↦ elim (Bool-cases ((leb 0xD800 n && leb n 0xDFFF) || ltb 0x10FFFF n)) [
      | inl no_character ↦ ground arith
      | inr _ ↦ elim (Bool-cases (ltb n 0x10000)) [
        | inl three ↦ ground arith
        | inr four ↦ ground arith
      ]
    ]
  ]
]

high_no_number : (s : Text) (n : ℕ) → BeginsHigh s → s ≢ format_ℕ n
high_no_number [] n h e = absurd h
high_no_number (c ∷ s) n h e = absurd (omega (arith, h, (first_digit c s n e).1))

encode_rune-format_ℕ : (n : ℕ) → encode_rune n ≢ format_ℕ n
unfolding encode_rune
encode_rune-format_ℕ n e = elim (Bool-cases (ltb n 0x80)) [
  | inl ascii ↦ absurd (omega (arith, format_ℕ_single n n (rw ascii at e)))
  | inr high ↦ high_no_number (encode_rune n) n (encode_rune-BeginsHigh n (ground arith)) e
]

rune_text_small : (n : ℕ) → n < 65536 → rune_text (pos n) ≡ encode_rune n
unfolding rune_text
rune_text_small n h = ap encode_rune small
  where
    small : (n % mod64) % 4294967296 ≡ n
    small = omega (arith, h)

glue :
    (h t r : Text)
    → (h ++ codes " ") ++ ((codes "port=" ++ (t ++ codes " ")) ++ r)
      ≡ h ++ (codes " port=" ++ (t ++ (codes " " ++ r)))
glue h t r =
    append_assoc h (codes " ") ((codes "port=" ++ (t ++ codes " ")) ++ r)
    ∙ ap (λ x. h ++ (codes " port=" ++ x)) (append_assoc t (codes " ") r)

port_setting_of :
    (l : Libraries) (c : Config l) (n : ℕ)
    → c.port ≡ pos (suc n)
    → port_setting c ≡ codes "port=" ++ (rune_text (pos (suc n)) ++ codes " ")
unfolding port_setting
port_setting_of l c n e =
    if-eq-left (ltb_ℤ (pos 0) c.port) _ _ (ap (ltb_ℤ (pos 0)) e ∙ ground arith)
    ∙ ap (λ p. codes "port=" ++ (rune_text p ++ codes " ")) e

-- With no URL, a host and a port from 1 to 65535, ToConnectionString writes host, " port=" and then
-- a text that is never the decimal digits of the port, before a space and the other settings.
pub to_connection_string-port :
    (l : Libraries) (int_seconds : ℤ → ℤ) (c : Config l) (n : ℕ)
    → c.database_url ≡ []
    → c.host ≢ []
    → c.port ≡ pos (suc n)
    → n < 65535
    → (t : Text) × (to_connection_string int_seconds c
        ≡ codes "host="
          ++ (c.host ++ (codes " port=" ++ (t ++ (codes " " ++ other_settings int_seconds c)))))
      × (t ≢ format_ℕ (suc n))
unfolding to_connection_string
to_connection_string-port l int_seconds c n url host port h =
    let rest = other_settings int_seconds c in
    (
      rune_text (pos (suc n)),
      if-eq-right (not (is_empty c.database_url)) _ _ (ap (λ u. not (is_empty u)) url)
          ∙ ap (λ x. x ++ (port_setting c ++ rest))
              (if-eq-left (not (is_empty c.host)) _ [] (ap not ((is_empty-false c.host).1 host)))
          ∙ ap (λ y. (codes "host=" ++ (c.host ++ codes " ")) ++ (y ++ rest))
              (port_setting_of l c n port)
          ∙ ap (λ x. codes "host=" ++ x) (glue c.host (rune_text (pos (suc n))) rest),
      λ e. encode_rune-format_ℕ (suc n) (sym (rune_text_small (suc n) (omega (arith, h))) ∙ e),
    )
