-- ===== src/Names/RoundTrip.antt =====
-- The names of groups and `HandleMessage` (libcor/src/cor/services/controller.cpp).
use pla_co_r.Base.{
  ℕ, ◌^◌, ◌<◌, ◌≡◌, refl, true, false, some, [], ◌∷◌, ◌++◌, All-append, All-imp, ◌∙◌, ltb,
  if◌then◌else◌, ap, arith,
}
use pla_co_r.Text.Bytes.{
  bytes_eq_self, Bytes, codes, bytes_eq, contains, starts_with, Lacks, find-append, substr-append,
  contains-append, contains-Lacks,
}
use pla_co_r.Text.Decimal.{to_string, is_digit, to_string-All, stoul-to_string}
use pla_co_r.Names.Groups.{
  get_context_group, is_context_group, get_context_from_context_group, get_resource_group,
  is_resource_group, get_idp_from_resource_group, get_message_group, get_idp_from_message_group,
  behind_at, idp_of_text, erase_resource, loop_break, handle_self_leave, initialize,
  initialize_context, check_replica, handle_join,
}

behind_at_lem :
    (app rest : Bytes) (c : ℕ) → Lacks b'@' app → behind_at (app ++ b'@' ∷ (c ∷ rest)) ≡ some rest
unfolding behind_at
behind_at_lem app rest c h =
    rw (find-append b'@' app (c ∷ rest) h, behind_at)
      (substr-append app (b'@' ∷ (c ∷ rest)) 2 ∙ ground arith)

idp_of_text-to_string : (idp : ℕ) → idp < 2 ^ 32 → idp_of_text (some (to_string idp)) ≡ some idp
unfolding idp_of_text
idp_of_text-to_string idp l = rw (stoul-to_string idp (omega arith), idp_of_text) (ground arith)

pub resource_group-idp :
    (app : Bytes) (idp : ℕ)
    → Lacks b'@' app
    → idp < 2 ^ 32
    → get_idp_from_resource_group (get_resource_group app idp) ≡ some idp
unfolding get_idp_from_resource_group get_resource_group
resource_group-idp app idp h l =
    ap idp_of_text (behind_at_lem app (to_string idp) b'R' h) ∙ idp_of_text-to_string idp l

pub message_group-idp :
    (app : Bytes) (idp : ℕ)
    → Lacks b'@' app
    → idp < 2 ^ 32
    → get_idp_from_message_group (get_message_group app idp) ≡ some idp
unfolding get_idp_from_message_group get_message_group
message_group-idp app idp h l =
    ap idp_of_text (behind_at_lem app (to_string idp) b'M' h) ∙ idp_of_text-to_string idp l

pub context_group-context :
    (app context : Bytes)
    → Lacks b'$' app
    → get_context_from_context_group (get_context_group app context) ≡ some context
unfolding get_context_from_context_group get_context_group
context_group-context app context d =
    rw (find-append b'$' app context d, get_context_from_context_group)
      (substr-append app (b'$' ∷ context) 1 ∙ ground arith)

-- The identifier of a resource is read back from the name of its consistency group and from the
-- name of its message group, and a context from the name of its group, for every identifier of 32
-- bits and every context, if the name of the application group has no `@` and no `$` in it.
pub groups_read_back :
    (app context : Bytes) (idp : ℕ)
    → Lacks b'@' app
    → Lacks b'$' app
    → idp < 2 ^ 32
    → (get_idp_from_resource_group (get_resource_group app idp) ≡ some idp)
      × (get_idp_from_message_group (get_message_group app idp) ≡ some idp)
      × (get_context_from_context_group (get_context_group app context) ≡ some context)
unfolding get_idp_from_message_group get_message_group get_context_from_context_group
    get_context_group
groups_read_back app context idp h d l = (
  resource_group-idp app idp h l,
  message_group-idp app idp h l,
  context_group-context app context d,
)

starts_with_self : (p s : Bytes) → starts_with p (p ++ s) ≡ true
starts_with_self [] s = refl
starts_with_self (c ∷ p) s = ground (arith, starts_with_self p s)

-- A text that is not empty is found at its own place.
contains_inside : (c : ℕ) (p s t : Bytes) → contains (c ∷ p) (s ++ (c ∷ (p ++ t))) ≡ true
contains_inside c p s t =
    contains-append (c ∷ p) s (c ∷ (p ++ t)) (ground (arith, starts_with_self p t))

-- A text that is longer is another text.
bytes_eq_longer : (s : Bytes) (c : ℕ) (t : Bytes) → bytes_eq s (s ++ c ∷ t) ≡ false
bytes_eq_longer [] c t = refl
bytes_eq_longer (b ∷ s) c t = ground (arith, bytes_eq_longer s c t)

digits-Lacks : (c : ℕ) → is_digit c ≡ false → (n : ℕ) → Lacks c (to_string n)
digits-Lacks c h n = All-imp _ _ (λ b d e. ground arith) (to_string n) (to_string-All n)

module _ (app : Bytes) (size : ℕ) (ctrl : Bytes) where
  app-joined : Lacks b'@' app → Lacks b'$' app → handle_join app app size ctrl ≡ initialize ∷ []
  unfolding handle_join is_context_group is_resource_group
  app-joined h d =
      rw (bytes_eq_self app, contains-Lacks b'$' [] app d, contains-Lacks b'@' (codes "R") app h)
        refl

  context-joined :
      (context : Bytes)
      → Lacks b'@' app
      → Lacks b'@' context
      → handle_join app (get_context_group app context) size ctrl ≡ initialize_context ∷ []
  unfolding handle_join is_context_group is_resource_group get_context_group
  context-joined context h k =
      rw
        (
          bytes_eq_longer app b'$' context,
          contains_inside b'$' [] app context,
          contains-Lacks b'@' (codes "R") (app ++ (codes "$" ++ context))
              (All-append _ app (b'$' ∷ context) h ((λ e. ground arith), k)),
        )
        refl

  resource-joined :
      (idp : ℕ)
      → Lacks b'@' app
      → Lacks b'$' app
      → idp < 2 ^ 32
      → handle_join app (get_resource_group app idp) size ctrl
        ≡ (if ltb 1 size then check_replica (some idp) size ctrl ∷ [] else [])
  unfolding handle_join is_context_group is_resource_group get_resource_group
  resource-joined idp h d l =
      rw
        (
          bytes_eq_longer app b'@' (codes "R" ++ to_string idp),
          contains-Lacks b'$' [] (app ++ (codes "@R" ++ to_string idp)) (
              All-append _ app (codes "@R" ++ to_string idp) d
                ((λ e. ground arith), ((λ e. ground arith), digits-Lacks b'$' refl idp))),
          contains_inside b'@' (codes "R") app (to_string idp),
        )
        (ap (λ o. if ltb 1 size then check_replica o size ctrl ∷ [] else [])
          (resource_group-idp app idp h l))

-- A join of the application group only initialises, one of a context group only initialises the
-- context, and one of a resource's group only checks that resource's replica, if the group has
-- more than one member: the three kinds of groups are never confused, if the name of the
-- application has no `@` and no `$`, the context has no `@`, and the identifier has 32 bits.
pub joins_told_apart :
    (app context ctrl : Bytes) (idp size : ℕ)
    → Lacks b'@' app
    → Lacks b'$' app
    → Lacks b'@' context
    → idp < 2 ^ 32
    → (handle_join app app size ctrl ≡ initialize ∷ [])
      × (handle_join app (get_context_group app context) size ctrl ≡ initialize_context ∷ [])
      × (handle_join app (get_resource_group app idp) size ctrl
          ≡ (if ltb 1 size then check_replica (some idp) size ctrl ∷ [] else []))
joins_told_apart app context ctrl idp size h d k l = (
  app-joined app size ctrl h d,
  context-joined app size ctrl context h k,
  resource-joined app size ctrl idp h d l,
)

-- A controller that has left a group ends its loop if it is the application's, and erases the
-- resource if it is a resource's, under the same conditions on the names.
pub leaves_told_apart :
    (app context : Bytes) (idp : ℕ)
    → Lacks b'@' app
    → Lacks b'$' app
    → Lacks b'@' context
    → idp < 2 ^ 32
    → (handle_self_leave app app ≡ loop_break ∷ [])
      × (handle_self_leave app (get_context_group app context) ≡ [])
      × (handle_self_leave app (get_resource_group app idp) ≡ erase_resource (some idp) ∷ [])
unfolding handle_self_leave is_resource_group get_context_group get_resource_group
leaves_told_apart app context idp h d k l = (
  rw (bytes_eq_self app, contains-Lacks b'@' (codes "R") app h) refl,
  rw
      (
        bytes_eq_longer app b'$' context,
        contains-Lacks b'@' (codes "R") (app ++ (codes "$" ++ context))
            (All-append _ app (b'$' ∷ context) h ((λ e. ground arith), k)),
      )
      refl,
  rw
      (
        bytes_eq_longer app b'@' (codes "R" ++ to_string idp),
        contains_inside b'@' (codes "R") app (to_string idp),
      )
      (ap (λ o. erase_resource o ∷ []) (resource_group-idp app idp h l)),
)
