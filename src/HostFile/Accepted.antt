-- ===== src/HostFile/Accepted.antt =====
-- What the expressions match is a line of one of the forms.
use mathlib.Core.List.{append-nil}
use pla_co_r.Base.{
  ℕ, ◌≡◌, refl, sym, ap, subst, ◌∙◌, Bool, true, false, none, some, some-injective, none-ne-some,
  [], ◌∷◌, ◌++◌, ◌⊎◌, ◌↔◌, inl, inr, Bool-cases, arith,
}
use pla_co_r.Text.Bytes.{Bytes}
use pla_co_r.Text.Decimal.{is_digit}
use pla_co_r.HostFile.Line.{
  Host, colon, is_name_byte, class_part, class_rest, at_end, optional_colon, optional_colons,
  after_colon, after_number, after_name, hostname_regex, hostname_sshport_regex,
  hostname_spreadport_regex, hostname_sshport_spreadport_regex, parse_trimmed, remove_spaces,
  parse_line,
}
use pla_co_r.HostFile.Matches.{Of, IsName, IsNumber}
use pla_co_r.HostFile.Written.{
  Ending, no_colon, one_colon, two_colons, colons, Form, named, with_ssh_port, with_spread_port,
  with_ports, written, meaning, IsForm, parse_trimmed-written,
}

class_part-class_rest : (p : ℕ → Bool) (s : Bytes) → class_part p s ++ class_rest p s ≡ s
class_part-class_rest p [] = refl
class_part-class_rest p (c ∷ s) = elim (Bool-cases (p c)) [
  | inl e ↦ rw e (ap (λ t. c ∷ t) (class_part-class_rest p s))
  | inr e ↦ rw e refl
]

class_part-Of : (p : ℕ → Bool) (s : Bytes) → Of p (class_part p s)
class_part-Of p [] = tt
class_part-Of p (c ∷ s) = elim (Bool-cases (p c)) [
  | inl e ↦ rw e (e, class_part-Of p s)
  | inr e ↦ rw e tt
]

at_end-nil : (s : Bytes) → at_end s ≡ true → s ≡ []
at_end-nil [] h = refl
at_end-nil (c ∷ s) h = cc

optional_colon-cases : (s : Bytes) → optional_colon s ≡ true → (s ≡ []) ⊎ (s ≡ colon ∷ [])
optional_colon-cases [] h = inl refl
optional_colon-cases (c ∷ []) h = inr (ap (λ x. x ∷ []) (ground arith))
optional_colon-cases (c ∷ d ∷ s) h = absurd (ground arith)

after_colon-cases :
    (p : Bytes → Bool) (s : Bytes)
    → after_colon p s ≡ true
    → (r : Bytes) × (s ≡ colon ∷ r) × (p r ≡ true)
after_colon-cases p [] h = cc
after_colon-cases p (c ∷ s) h = (s, ap (λ x. x ∷ s) (ground arith), ground arith)

optional_colons-cases : (s : Bytes) → optional_colons s ≡ true → (e : Ending) × (s ≡ colons e)
optional_colons-cases [] h = (no_colon, refl)
optional_colons-cases (c ∷ s) h =
    let (r, e, k) = after_colon-cases optional_colon (c ∷ s) h in
    elim (optional_colon-cases r k) [
      | inl f ↦ (one_colon, e ∙ ap (λ t. colon ∷ t) f)
      | inr f ↦ (two_colons, e ∙ ap (λ t. colon ∷ t) f)
    ]

after_name-cases :
    (p : Bytes → Bool) (s : Bytes)
    → after_name p s ≡ true
    → (a r : Bytes) × (s ≡ a ++ r) × IsName a × (p r ≡ true)
after_name-cases p s h = (
  class_part is_name_byte s,
  class_rest is_name_byte s,
  sym (class_part-class_rest is_name_byte s),
  (ground arith, class_part-Of is_name_byte s),
  ground arith,
)

after_number-cases :
    (p : Bytes → Bool) (s : Bytes)
    → after_number p s ≡ true
    → (n r : Bytes) × (s ≡ n ++ r) × IsNumber n × (p r ≡ true)
after_number-cases p s h = (
  class_part is_digit s,
  class_rest is_digit s,
  sym (class_part-class_rest is_digit s),
  ground arith,
  ground arith,
)

abbrev IsWritten : Bytes → Type 0
IsWritten line = (f : Form) × IsForm f × (line ≡ written f)

hostname_regex-IsWritten : (s : Bytes) → hostname_regex s ≡ true → IsWritten s
hostname_regex-IsWritten s h =
    let (a, r, e, ha, k) = after_name-cases optional_colons s h in
    let (en, f) = optional_colons-cases r k in (named a en, ha, e ∙ ap (λ t. a ++ t) f)

hostname_sshport_regex-IsWritten : (s : Bytes) → hostname_sshport_regex s ≡ true → IsWritten s
hostname_sshport_regex-IsWritten s h =
    let (a, r, e, ha, k) = after_name-cases (after_colon (after_number optional_colon)) s h in
    let (q, f, l) = after_colon-cases (after_number optional_colon) r k in
    let (n, t, g, hn, z) = after_number-cases optional_colon q l in
    elim (optional_colon-cases t z) [
      | inl w ↦ (
        with_ssh_port a n false,
        (ha, hn),
        e ∙ ap (λ x. a ++ x) (f ∙ ap (λ x. colon ∷ x) (g ∙ ap (λ x. n ++ x) w ∙ append-nil n)),
      )
      | inr w ↦ (
        with_ssh_port a n true,
        (ha, hn),
        e ∙ ap (λ x. a ++ x) (f ∙ ap (λ x. colon ∷ x) (g ∙ ap (λ x. n ++ x) w)),
      )
    ]

-- A number up to the end.
last-IsNumber : (s : Bytes) → after_number at_end s ≡ true → IsNumber s
last-IsNumber s h =
    let (n, t, g, hn, z) = after_number-cases at_end s h in
    subst IsNumber (sym (g ∙ ap (λ x. n ++ x) (at_end-nil t z) ∙ append-nil n)) hn

hostname_spreadport_regex-IsWritten : (s : Bytes) → hostname_spreadport_regex s ≡ true → IsWritten s
hostname_spreadport_regex-IsWritten s h =
    let (a, r, e, ha, k) = after_name-cases (after_colon (after_colon (after_number at_end))) s h in
    let (q, f, l) = after_colon-cases (after_colon (after_number at_end)) r k in
    let (m, g, z) = after_colon-cases (after_number at_end) q l in
    (
      with_spread_port a m,
      (ha, last-IsNumber m z),
      e ∙ ap (λ x. a ++ x) (f ∙ ap (λ x. colon ∷ x) g),
    )

hostname_sshport_spreadport_regex-IsWritten :
    (s : Bytes) → hostname_sshport_spreadport_regex s ≡ true → IsWritten s
hostname_sshport_spreadport_regex-IsWritten s h =
    let (a, r, e, ha, k) =
      after_name-cases (after_colon (after_number (after_colon (after_number at_end)))) s h in
    let (q, f, l) = after_colon-cases (after_number (after_colon (after_number at_end))) r k in
    let (n, t, g, hn, z) = after_number-cases (after_colon (after_number at_end)) q l in
    let (m, w, y) = after_colon-cases (after_number at_end) t z in
    (
      with_ports a n m,
      (ha, hn, last-IsNumber m y),
      e ∙ ap (λ x. a ++ x) (f ∙ ap (λ x. colon ∷ x) (g ∙ ap (λ x. n ++ x) w)),
    )

none_matches :
    (s : Bytes)
    → hostname_regex s ≡ false
    → hostname_sshport_regex s ≡ false
    → hostname_spreadport_regex s ≡ false
    → hostname_sshport_spreadport_regex s ≡ false
    → parse_trimmed s ≡ none
none_matches s h1 h2 h3 h4 = rw (h1, h2, h3, h4) refl

parse_trimmed-IsWritten : (s : Bytes) (h : Host) → parse_trimmed s ≡ some h → IsWritten s
parse_trimmed-IsWritten s h e = elim (Bool-cases (hostname_regex s)) [
  | inl a ↦ hostname_regex-IsWritten s a
  | inr a ↦ elim (Bool-cases (hostname_sshport_regex s)) [
    | inl b ↦ hostname_sshport_regex-IsWritten s b
    | inr b ↦ elim (Bool-cases (hostname_spreadport_regex s)) [
      | inl c ↦ hostname_spreadport_regex-IsWritten s c
      | inr c ↦ elim (Bool-cases (hostname_sshport_spreadport_regex s)) [
        | inl d ↦ hostname_sshport_spreadport_regex-IsWritten s d
        | inr d ↦ absurd (none-ne-some h (sym (none_matches s a b c d) ∙ e))
      ]
    ]
  ]
]

-- What a line, without its spaces, says.
abbrev pub Says : Bytes → Host → Type 0
Says line h = (f : Form) × IsForm f × (remove_spaces line ≡ written f) × (h ≡ meaning f)

-- A line is accepted as a host exactly if, without its spaces, it has one of the forms, and the
-- host is then what the form means.
pub parse_line-Says : (line : Bytes) (h : Host) → (parse_line line ≡ some h) ↔ Says line h
unfolding parse_line
parse_line-Says line h = (accepts, λ s. accepted s.0 s.1 s.2 s.3)
  where
    accepted :
        (f : Form)
        → IsForm f
        → remove_spaces line ≡ written f
        → h ≡ meaning f
        → parse_trimmed (remove_spaces line) ≡ some h
    accepted f k e m = ap parse_trimmed e ∙ parse_trimmed-written f k ∙ ap some (sym m)

    accepts : parse_trimmed (remove_spaces line) ≡ some h → Says line h
    accepts e =
        let (f, k, w) = parse_trimmed-IsWritten (remove_spaces line) h e in
        (f, k, w, some-injective _ _ (sym e ∙ ap parse_trimmed w ∙ parse_trimmed-written f k))
