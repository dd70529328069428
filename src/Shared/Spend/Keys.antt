-- ===== src/Shared/Spend/Keys.antt =====
-- Which customers and months share a spend key.
use marginpilot.Base.{
  ◌+◌, ◌*◌, ◌<◌, ◌≡◌, ◌↔◌, refl, ap, arith, Text, codes, ◌∷◌, ◌++◌, length, length-append, Lacks,
  split_at, append_cancel, prefix_cancel, append_assoc,
}
use marginpilot.Base.Decimal.{pad, value, value-pad, value-two, length-pad}
use marginpilot.Shared.Calendar.{Time, year, month, month_bounds}
use marginpilot.Shared.Spend.{period, key}

length-month : (t : Time) → length (pad 2 (month t)) ≡ 2
length-month t = length-pad 1 (month t) (omega (arith, month_bounds t))

-- Read as a number, the label is a hundred times the year and the month.
pub value-period : (t : Time) → value 0 (period t) ≡ year t * 100 + month t
unfolding period
value-period t = omega (
  arith,
  value-two (pad 4 (year t)) (pad 2 (month t)) (length-month t),
  value-pad 4 (year t),
  value-pad 2 (month t),
)

-- Two instants have one label exactly when they lie in one month of one year.
pub period_iff : (t u : Time) → (period t ≡ period u) ↔ ((year t ≡ year u) × (month t ≡ month u))
period_iff t u = (
  (λ e.
      omega
        (arith, ap (value 0) e, value-period t, value-period u, month_bounds t, month_bounds u)),
  (λ e. unfold period in rw (e.0, e.1) refl),
)

length-period : (t : Time) → year t < 10000 → length (period t) ≡ 6
unfolding period
length-period t h = omega (
  arith,
  length-append (pad 4 (year t)) (pad 2 (month t)),
  length-month t,
  length-pad 3 (year t) h,
)

key_parts :
    (a b c d : Text) (t u : Time)
    → Lacks b':' a
    → Lacks b':' b
    → year t < 10000
    → year u < 10000
    → key a c t ≡ key b d u
    → (a ≡ b) × (c ≡ d) × (period t ≡ period u)
unfolding key
key_parts a b c d t u ha hb ht hu e =
    let (tenants, rest) = split_at b':' a b _ _ ha hb (prefix_cancel (codes "spend:") _ _ e) in
    let (customers, periods) =
      append_cancel c d (b':' ∷ period t) (b':' ∷ period u)
        (omega (arith, length-period t ht, length-period u hu)) rest in
    (tenants, customers, ground arith)

-- For tenants with no colon and years of four digits, two spend keys are one exactly when tenant,
-- customer, year and month are: no two customers share a counter, and a new month starts a new one.
pub key_iff :
    (a b c d : Text) (t u : Time)
    → Lacks b':' a
    → Lacks b':' b
    → year t < 10000
    → year u < 10000
    → (key a c t ≡ key b d u) ↔ ((a ≡ b) × (c ≡ d) × (year t ≡ year u) × (month t ≡ month u))
key_iff a b c d t u ha hb ht hu = (
  (λ e.
      let (tenants, customers, periods) = key_parts a b c d t u ha hb ht hu e in
      let (years, months) = (period_iff t u).0 periods in (tenants, customers, years, months)),
  (λ (tenants, customers, years, months).
      unfold key in rw (tenants, customers, (period_iff t u).1 (years, months)) refl),
)

-- A colon in a tenant's name makes two different customers share one counter.
key_collision : (a b c : Text) (t : Time) → key (a ++ b':' ∷ b) c t ≡ key a (b ++ b':' ∷ c) t
unfolding key
key_collision a b c t = simp append_assoc
