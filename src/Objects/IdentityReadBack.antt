-- ===== src/Objects/IdentityReadBack.antt =====
-- Proofs about src/lib/objects/identity.ts.
use just_git.Base.{
  ℕ, ◌+◌, ◌-◌, ◌≡◌, refl, sym, ap, ◌∙◌, false, ◌||◌, some, [], ◌∷◌, ◌++◌, append_assoc, Text, take,
  drop, split, index_of, includes_unit, index_of-append, split_part, split-append_part, length,
  length-append, take_append, drop_append, arith,
}
use just_git.Base.ParseInt.{int}
use just_git.Base.ParseInt.Decimal.{
  number_text, decimal, trim_end, trim_end-space, parse_int-decimal, decimal_digits,
  includes_unit-digits,
}
use just_git.Objects.Identity.{
  Identity, parse_identity, serialize_identity, identity_at, raw_timestamp, zone_or_default,
}

pub includes_unit-append :
    (c : ℕ) (a b : Text) → includes_unit c (a ++ b) ≡ (includes_unit c a || includes_unit c b)
unfolding includes_unit
includes_unit-append c [] b = refl
includes_unit-append c (x ∷ a) b = ground (arith, includes_unit-append c a b)

-- What a line can carry: no angle bracket in the name and no closing one in the e-mail, a name that is
-- trimmed, a time that is a number, and a zone without a space.
pub record IsPlain (id : Identity) (seconds : ℕ) : Type 0 where
  pub no_open : includes_unit 0x3c id.name ≡ false
  pub no_close : includes_unit 0x3e id.name ≡ false
  pub email_open : includes_unit 0x3e id.email ≡ false
  pub trimmed : trim_end id.name ≡ id.name
  pub time : id.timestamp ≡ int seconds
  pub zone : includes_unit 0x20 id.timezone ≡ false

-- The line in the four ways that the parser cuts it.
module _ (n e r : Text) where
  abbrev whole : Text
  whole = n ++ (0x20 ∷ 0x3c ∷ (e ++ (0x3e ∷ 0x20 ∷ r)))

  abbrev front : Text
  front = n ++ (0x20 ∷ 0x3c ∷ [])

  at_open : whole ≡ (n ++ (0x20 ∷ [])) ++ (0x3c ∷ (e ++ (0x3e ∷ 0x20 ∷ r)))
  at_open = sym (append_assoc n (0x20 ∷ []) (0x3c ∷ (e ++ (0x3e ∷ 0x20 ∷ r))))

  at_email : whole ≡ front ++ (e ++ (0x3e ∷ 0x20 ∷ r))
  at_email = sym (append_assoc n (0x20 ∷ 0x3c ∷ []) (e ++ (0x3e ∷ 0x20 ∷ r)))

  at_close : whole ≡ (front ++ e) ++ (0x3e ∷ 0x20 ∷ r)
  at_close = at_email ∙ sym (append_assoc front e (0x3e ∷ 0x20 ∷ r))

  at_rest : whole ≡ ((front ++ e) ++ (0x3e ∷ 0x20 ∷ [])) ++ r
  at_rest = at_close ∙ sym (append_assoc (front ++ e) (0x3e ∷ 0x20 ∷ []) r)

  index_open : includes_unit 0x3c n ≡ false → index_of 0x3c whole ≡ some (length (n ++ (0x20 ∷ [])))
  index_open h =
      ap (index_of 0x3c) at_open
      ∙ index_of-append 0x3c (n ++ (0x20 ∷ [])) (e ++ (0x3e ∷ 0x20 ∷ r))
          (includes_unit-append 0x3c n (0x20 ∷ []) ∙ (unfold includes_unit in rw h))

  index_close :
      includes_unit 0x3e n ≡ false
      → includes_unit 0x3e e ≡ false
      → index_of 0x3e whole ≡ some (length (front ++ e))
  index_close h g =
      ap (index_of 0x3e) at_close
      ∙ index_of-append 0x3e (front ++ e) (0x20 ∷ r) (
          includes_unit-append 0x3e front e
          ∙ ap (λ b. b || includes_unit 0x3e e) (includes_unit-append 0x3e n (0x20 ∷ 0x3c ∷ []))
          ∙ (unfold includes_unit in rw (h, g)))

  take_name : take (length (n ++ (0x20 ∷ []))) whole ≡ n ++ (0x20 ∷ [])
  take_name =
      ap (take (length (n ++ (0x20 ∷ [])))) at_open ∙ take_append (n ++ (0x20 ∷ [])) _ _ refl

  take_email :
      take
        (length (front ++ e) - (length (n ++ (0x20 ∷ [])) + 1))
        (drop (length (n ++ (0x20 ∷ [])) + 1) whole)
      ≡ e
  take_email =
      ap
        (λ l.
          take (length (front ++ e) - (length (n ++ (0x20 ∷ [])) + 1))
            (drop (length (n ++ (0x20 ∷ [])) + 1) l))
        at_email
      ∙ ap (take (length (front ++ e) - (length (n ++ (0x20 ∷ [])) + 1))) (
          drop_append front (e ++ (0x3e ∷ 0x20 ∷ r)) (length (n ++ (0x20 ∷ [])) + 1)
            (omega (arith, length-append n (0x20 ∷ []), length-append n (0x20 ∷ 0x3c ∷ []))))
      ∙ take_append e (0x3e ∷ 0x20 ∷ r) _ (
          omega (
            arith,
            length-append n (0x20 ∷ []),
            length-append n (0x20 ∷ 0x3c ∷ []),
            length-append front e,
          ))

  drop_rest : drop (length (front ++ e) + 2) whole ≡ r
  drop_rest =
      ap (drop (length (front ++ e) + 2)) at_rest
      ∙ drop_append ((front ++ e) ++ (0x3e ∷ 0x20 ∷ [])) r (length (front ++ e) + 2)
          (omega (arith, length-append (front ++ e) (0x3e ∷ 0x20 ∷ [])))

split_rest :
    (seconds : ℕ) (zone : Text)
    → includes_unit 0x20 zone ≡ false
    → split 0x20 (decimal seconds ++ (0x20 ∷ zone)) ≡ decimal seconds ∷ zone ∷ []
split_rest seconds zone h =
    split-append_part 0x20 (decimal seconds) zone
      (includes_unit-digits 0x20 (decimal seconds) (omega arith) (decimal_digits seconds))
    ∙ ap (λ l. decimal seconds ∷ l) (split_part 0x20 zone h)

parse_identity_found :
    (line : Text) (i j : ℕ)
    → index_of 0x3c line ≡ some i
    → index_of 0x3e line ≡ some j
    → parse_identity line ≡ some (identity_at line i j)
unfolding parse_identity
parse_identity_found line i j e f = ground (arith, e, f)

-- An identity as a record with the time written as a number.
identity_lem :
    (n e z : Text) (seconds : ℕ)
    → includes_unit 0x3c n ≡ false
    → includes_unit 0x3e n ≡ false
    → includes_unit 0x3e e ≡ false
    → trim_end n ≡ n
    → includes_unit 0x20 z ≡ false
    → parse_identity (whole n e (decimal seconds ++ (0x20 ∷ z)))
      ≡ some (record { name = n; email = e; timestamp = int seconds; timezone = z })
unfolding identity_at raw_timestamp zone_or_default
identity_lem n e z seconds a b c d f =
    let r = decimal seconds ++ (0x20 ∷ z) in
    parse_identity_found (whole n e r) _ _ (index_open n e r a) (index_close n e r b c)
    ∙ rw (
      take_name n e r,
      take_email n e r,
      drop_rest n e r,
      split_rest seconds z f,
      trim_end-space n,
      d,
      parse_int-decimal seconds,
    )

pub parse_identity-serialize_identity :
    (id : Identity) (seconds : ℕ)
    → IsPlain id seconds
    → parse_identity (serialize_identity id) ≡ some id
unfolding serialize_identity number_text
parse_identity-serialize_identity id seconds h =
    rw h.time (
      identity_lem id.name id.email id.timezone seconds h.no_open h.no_close h.email_open h.trimmed
        h.zone)
    ∙ ap
        (λ t.
          some (record { name = id.name; email = id.email; timestamp = t; timezone = id.timezone }))
        (sym h.time)
