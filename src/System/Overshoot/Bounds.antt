-- ===== src/System/Overshoot/Bounds.antt =====
-- How far the spend can get over the limit in any interleaving of checks and metering.
use marginpilot.Base.{
  ℕ, suc, ◌+◌, ◌*◌, ◌^◌, ◌≤◌, ◌<◌, Text, List, [], ◌∷◌, ◌++◌, length, All, text_eq, Bool-cases, inl,
  inr, if◌then◌else◌, ◌≡◌, refl, ap, ◌∙◌, arith, Option, true, ℤ, pos, ◌+ℤ◌, ◌-ℤ◌, ◌<ℤ◌, pos-+ℤ,
  IsInt64, Result, ok,
}
use marginpilot.Shared.Calendar.{Time}
use marginpilot.Shared.Events.{UsageEvent}
use marginpilot.External.Redis.{Redis, IsRedis, counter}
use marginpilot.External.Machine.{Machine}
use marginpilot.External.ClickHouse.{Connection}
use marginpilot.Metering.Pricer.{Pricer}
use marginpilot.Metering.Sink.{Row}
use marginpilot.Metering.Consumer.{handle}
use marginpilot.Metering.Consumer.Accounting.{IsApart}
use marginpilot.Budget.Enforcer.{Decision}
use marginpilot.Budget.Refinement.{held_limit, held_spend, allow_refines, lookup-allow}
use marginpilot.System.Ledger.{HasPrice, key_of, counter_after}
use marginpilot.System.Overshoot.{
  cost_of, spend_counter, checked, IsCurrent, Reached, start, granted, answered, metered,
  half_metered, redelivered, lost, meanwhile,
}

cost_of-insert :
    (price : UsageEvent → ℕ) (xs ys : List UsageEvent) (e : UsageEvent)
    → cost_of price (xs ++ e ∷ ys) ≡ price e + cost_of price (xs ++ ys)
cost_of-insert price [] ys e = refl
cost_of-insert price (x ∷ xs) ys e = omega (arith, cost_of-insert price xs ys e)

All-remove :
    (P : UsageEvent → Type 0) (xs ys : List UsageEvent) (e : UsageEvent)
    → All P (xs ++ e ∷ ys)
    → All P (xs ++ ys)
All-remove P [] ys e (h, hs) = hs
All-remove P (x ∷ xs) ys e (h, hs) = (h, All-remove P xs ys e hs)

-- Events that cost at most `most` each.
cost_of-le :
    (price : UsageEvent → ℕ) (most : ℕ) (es : List UsageEvent)
    → All (λ e. price e ≤ most) es
    → cost_of price es ≤ length es * most
cost_of-le price most [] h = omega arith
cost_of-le price most (e ∷ es) (h, hs) = grind (arith, cost_of-le price most es hs)

slots_mono : (n slots most : ℕ) → n ≤ slots → n * most ≤ slots * most
slots_mono n slots most h = grind arith

again_le : (n most : ℕ) → suc n * most ≡ n * most + most
again_le n most = grind arith

module _ {W : Type 0} (unmarshal : Text → Result UsageEvent) (pricer : Pricer W)
    (ch : Connection W Row) (r : Redis W) (m : Machine W) {lookup : W → Text → Option Text}
    (laws : IsRedis r lookup) (apart : IsApart pricer ch lookup)
    (quiet : (k : Text) (w : W) → lookup (m.now w).1 k ≡ lookup w k) (default_limit : ℤ)
    (price : UsageEvent → ℕ) (tenant customer : Text) (month : Time) (limit most slots : ℕ) where
  abbrev RunTo : W → W → List UsageEvent → ℕ → Type 0
  RunTo =
      Reached unmarshal pricer ch r m laws apart quiet default_limit price tenant customer month
        limit most slots

  abbrev Current : W → Type 0
  Current =
      IsCurrent unmarshal pricer ch r m laws apart quiet default_limit price tenant customer month
        limit most slots

  abbrev check_at : W → Result Decision × W
  check_at w =
      checked unmarshal pricer ch r m laws apart quiet default_limit price tenant customer month
        limit most slots w

  abbrev own_counter : Text
  own_counter =
      spend_counter unmarshal pricer ch r m laws apart quiet default_limit price tenant customer
        month limit most slots

  -- What an interleaving keeps: the spend and all that is in flight together stay below the bound.
  record IsBounded (w : W) (es : List UsageEvent) (n : ℕ) : Type 0 where
    spent : ℕ
    held : counter (lookup w own_counter) ≡ pos spent
    below : spent + cost_of price es < limit + slots * most + n * most
    cheap : All (λ e. price e ≤ most) es

  granted-IsBounded :
      (w : W) (es : List UsageEvent) (n : ℕ) (d : Decision) (e : UsageEvent)
      → limit + slots * most + n * most < 2 ^ 63
      → IsBounded w es n
      → Current w
      → (check_at w).0 ≡ ok d
      → d.allowed ≡ true
      → suc (length es) ≤ slots
      → price e ≤ most
      → IsBounded (check_at w).1 (e ∷ es) n
  granted-IsBounded w es n d e small inv now answer allowed room cheap =
      let spend : held_spend r m laws quiet default_limit tenant customer w ≡ pos inv.spent =
        ap (λ (k : Text). counter (lookup w k)) now.same_month ∙ inv.held in
      let fits : IsInt64 (
          held_limit r m laws quiet default_limit tenant customer w
          -ℤ held_spend r m laws quiet default_limit tenant customer w) =
        rw (now.same_limit, spend) (ground (arith, inv.below)) in
      let decision = allow_refines r m laws quiet default_limit tenant customer w d fits answer in
      let under : pos inv.spent <ℤ pos limit =
        rw (spend, now.same_limit) at ((decision.allowed_iff.0 allowed).1) in
      record {
        spent = inv.spent;
        held =
            ap counter (
              lookup-allow r m laws quiet default_limit tenant customer w d tenant customer month
                answer)
            ∙ inv.held;
        below = omega (
          arith,
          under,
          cost_of-le price most (e ∷ es) (cheap, inv.cheap),
          slots_mono (suc (length es)) slots most room,
        );
        cheap = (cheap, inv.cheap);
      }

  kept-IsBounded :
      (w w' : W) (es : List UsageEvent) (n : ℕ)
      → IsBounded w es n
      → counter (lookup w' own_counter) ≡ counter (lookup w own_counter)
      → IsBounded w' es n
  kept-IsBounded w w' es n inv kept = record {
    spent = inv.spent;
    held = kept ∙ inv.held;
    below = inv.below;
    cheap = inv.cheap;
  }

  -- An event leaves the flight, and its price or nothing is added to the spend.
  removed-IsBounded :
      (w w' : W) (es fs xs ys : List UsageEvent) (n : ℕ) (e : UsageEvent) (added : ℕ)
      → added ≤ price e
      → (inv : IsBounded w es n) → es ≡ xs ++ e ∷ ys
      → fs ≡ xs ++ ys
      → counter (lookup w' own_counter) ≡ pos (inv.spent + added)
      → IsBounded w' fs n
  removed-IsBounded w w' es fs xs ys n e added share inv p q now = record {
    spent = inv.spent + added;
    held = now;
    below =
        rw q (omega (arith, inv.below, share, ap (cost_of price) p, cost_of-insert price xs ys e));
    cheap = rw q (All-remove _ xs ys e (rw p at inv.cheap));
  }

  module _ (priced : HasPrice pricer (λ e. pos (price e))) where
    -- What a metered event adds to the counter.
    share_of : UsageEvent → ℕ
    share_of e = if text_eq (key_of e) own_counter then price e else 0

    counter-handle :
        (e : UsageEvent) (payload : Text) (w : W) (spent : ℕ)
        → counter (lookup w own_counter) ≡ pos spent
        → unmarshal payload ≡ ok e
        → (handle unmarshal pricer ch r payload w).0 ≡ ok tt
        → (share_of e ≤ price e)
          × (counter (lookup (handle unmarshal pricer ch r payload w).1 own_counter)
              ≡ pos (spent + share_of e))
    unfolding share_of
    counter-handle e payload w spent held decoded done =
        let after =
          counter_after unmarshal pricer ch r laws apart (λ e'. pos (price e')) own_counter payload
            e w priced decoded done in
        elim (Bool-cases (text_eq (key_of e) own_counter)) [
          | inl own ↦ rw own (omega arith, rw (own, held) at after ∙ pos-+ℤ spent (price e))
          | inr other ↦ rw other (omega arith, rw (other, held) at after ∙ ap pos (omega arith))
        ]

    module _ (w₀ : W) (before : ℕ) (held : counter (lookup w₀ own_counter) ≡ pos before)
        (under : before < limit + slots * most) where
      Reached-IsBounded :
          (w : W) (es : List UsageEvent) (n : ℕ)
          → limit + slots * most + n * most < 2 ^ 63
          → RunTo w₀ w es n
          → IsBounded w es n
      Reached-IsBounded w es n small start = record {
        spent = before;
        held = held;
        below = omega (arith, under);
        cheap = tt;
      }
      Reached-IsBounded _ _ n small (granted w es _ d e past now answer allowed room cheap) =
          granted-IsBounded w es n d e small (Reached-IsBounded w es n small past) now answer
            allowed room cheap
      Reached-IsBounded _ es n small (answered w _ _ d past answer) =
          kept-IsBounded w _ es n (Reached-IsBounded w es n small past) (
            ap counter (
              lookup-allow r m laws quiet default_limit tenant customer w d tenant customer month
                answer))
      Reached-IsBounded _ fs n small (metered w es _ xs ys _ e payload past p q decoded done) =
          let inv = Reached-IsBounded w es n small past in
          let (share, now) = counter-handle e payload w inv.spent inv.held decoded done in
          removed-IsBounded w _ es fs xs ys n e (share_of e) share inv p q now
      Reached-IsBounded _ fs n small (half_metered f w es _ xs ys _ e past p q added) =
          let inv = Reached-IsBounded w es n small past in
          removed-IsBounded w (f w) es fs xs ys n e (price e) (omega arith) inv p q
            (added ∙ ap (λ (z : ℤ). z +ℤ pos (price e)) inv.held ∙ pos-+ℤ inv.spent (price e))
      Reached-IsBounded _ es _ small (redelivered w _ n e payload past cheap decoded done) =
          let inv = Reached-IsBounded w es n (omega (arith, small, again_le n most)) past in
          let (share, now) = counter-handle e payload w inv.spent inv.held decoded done in
          record {
            spent = inv.spent + share_of e;
            held = now;
            below = omega (arith, inv.below, share, cheap, again_le n most);
            cheap = inv.cheap;
          }
      Reached-IsBounded w fs n small (lost _ es _ xs ys _ e past p q) =
          let inv = Reached-IsBounded w es n small past in
          removed-IsBounded w w es fs xs ys n e 0 (omega arith) inv p q
            (inv.held ∙ ap pos (omega arith))
      Reached-IsBounded _ es n small (meanwhile f w _ _ past kept) =
          kept-IsBounded w (f w) es n (Reached-IsBounded w es n small past) kept

  -- On a Redis that keeps its laws, which pricer, sink and clock leave alone, with a price for each
  -- event: however checks, metering, losses and repeated deliveries of the requests of a customer
  -- interleave, while no event costs more than `most` and no more than `slots` granted requests are
  -- unmetered at a time, the customer's spend of the month, with what is in flight, stays below the
  -- limit plus `slots` times `most`, plus `most` for each delivery that was metered again; if the
  -- spend was below the first of these bounds before, and the last one fits an `int64`.
  pub counter-Reached :
      (w₀ w : W) (es : List UsageEvent) (before n : ℕ)
      → HasPrice pricer (λ x. pos (price x))
      → limit + slots * most + n * most < 2 ^ 63
      → counter (lookup w₀ own_counter) ≡ pos before
      → before < limit + slots * most
      → RunTo w₀ w es n
      → (spent : ℕ) × (counter (lookup w own_counter) ≡ pos spent)
        × (spent + cost_of price es < limit + slots * most + n * most)
  counter-Reached w₀ w es before n priced small held under run =
      let inv = Reached-IsBounded priced w₀ before held under w es n small run in
      (inv.spent, inv.held, inv.below)
