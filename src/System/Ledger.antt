-- ===== src/System/Ledger.antt =====
-- What a history of metering leaves in a spend counter.
use marginpilot.Base.{
  Text, text_eq, text_eq_iff, ◌≡◌, refl, sym, ap, subst, ◌∙◌, List, [], ◌∷◌, Option, Bool-cases,
  inl, inr, if◌then◌else◌, ℤ, pos, ◌+ℤ◌, +ℤ_assoc, +ℤ-left_comm, +ℤ_zero, Result, ok, ok-injective,
}
use mathlib.Core.List.{foldr, Perm}
use mathlib.Core.List.Perm
use marginpilot.Shared.Events.{UsageEvent}
use marginpilot.Shared.Spend
use marginpilot.External.Redis.{Redis, IsRedis, counter}
use marginpilot.External.ClickHouse.{Connection}
use marginpilot.Metering.Pricer.{Pricer}
use marginpilot.Metering.Sink.{Row}
use marginpilot.Metering.Consumer.{handle}
use marginpilot.Metering.Consumer.Accounting.{IsApart, handle-ok}

-- The key of the counter that an event is charged to.
abbrev pub key_of : UsageEvent → Text
key_of e = Spend.key e.tenant_id e.customer_id e.occurred_at

module _ (price : UsageEvent → ℤ) (k : Text) where
  abbrev pub add_share : UsageEvent → ℤ → ℤ
  add_share e t = if text_eq (key_of e) k then price e +ℤ t else t

  -- The prices of the events that are charged to the counter `k`.
  abbrev pub charged : List UsageEvent → ℤ
  charged es = foldr add_share (pos 0) es

  pub add_share_comm :
      (a b : UsageEvent) (t : ℤ) → add_share a (add_share b t) ≡ add_share b (add_share a t)
  add_share_comm a b t = elim (Bool-cases (text_eq (key_of a) k)) [
    | inl p ↦ elim (Bool-cases (text_eq (key_of b) k)) [
      | inl q ↦ rw (p, q) (+ℤ-left_comm (price a) (price b) t)
      | inr q ↦ rw (p, q) refl
    ]
    | inr p ↦ rw p refl
  ]

-- The pricer always answers the price of the event.
abbrev pub HasPrice : {W : Type 0} → Pricer W → (UsageEvent → ℤ) → Type 0
HasPrice {W} pricer price =
    (e : UsageEvent) (w : W) (c : ℤ)
    → (pricer e.model e.input_tokens e.output_tokens w).0 ≡ ok c
    → c ≡ price e

module _ {W : Type 0} (unmarshal : Text → Result UsageEvent) (pricer : Pricer W)
    (ch : Connection W Row) (rdb : Redis W) {lookup : W → Text → Option Text}
    (laws : IsRedis rdb lookup) (apart : IsApart pricer ch lookup) (price : UsageEvent → ℤ)
    (k : Text) where
  -- A history from one world to another: the events that metering handled with success, in order,
  -- and between them anything that leaves the counter `k` alone.
  pub data History : W → List UsageEvent → W → Type 0 where
    done : (w : W) → History w [] w
    metered :
        (payload : Text) (e : UsageEvent) (es : List UsageEvent) (w w' : W)
        → unmarshal payload ≡ ok e
        → (handle unmarshal pricer ch rdb payload w).0 ≡ ok tt
        → History (handle unmarshal pricer ch rdb payload w).1 es w'
        → History w (e ∷ es) w'
    meanwhile :
        (f : W → W) (es : List UsageEvent) (w w' : W)
        → lookup (f w) k ≡ lookup w k
        → History (f w) es w'
        → History w es w'

  pub counter_after :
      (payload : Text) (e : UsageEvent) (w : W)
      → HasPrice pricer price
      → unmarshal payload ≡ ok e
      → (handle unmarshal pricer ch rdb payload w).0 ≡ ok tt
      → counter (lookup (handle unmarshal pricer ch rdb payload w).1 k)
        ≡ (if text_eq (key_of e) k then counter (lookup w k) +ℤ price e else counter (lookup w k))
  counter_after payload e w priced decoded done_ok =
      let (e', c, decoded', cost, added, others) =
        handle-ok unmarshal pricer ch rdb laws apart payload w done_ok in
      let same : e' ≡ e = ok-injective (sym decoded' ∙ decoded) in
      let w' = (handle unmarshal pricer ch rdb payload w).1 in
      let own : counter (lookup w' (key_of e)) ≡ counter (lookup w (key_of e)) +ℤ price e =
        rw same at added
        ∙ ap (λ (z : ℤ). counter (lookup w (key_of e)) +ℤ z) (priced e w c (rw same at cost)) in
      elim (Bool-cases (text_eq (key_of e) k)) [
        | inl p ↦ rw p (
            subst (λ (j : Text). counter (lookup w' j) ≡ counter (lookup w j) +ℤ price e)
              ((text_eq_iff (key_of e) k).0 p) own)
        | inr q ↦ rw q (
            ap counter
              (others k (λ h. cc ((text_eq_iff (key_of e) k).1 (ap key_of (sym same) ∙ h), q))))
      ]

  counter_step :
      (e : UsageEvent) (es : List UsageEvent) (before after : ℤ)
      → after ≡ (if text_eq (key_of e) k then before +ℤ price e else before)
      → after +ℤ charged price k es ≡ before +ℤ charged price k (e ∷ es)
  counter_step e es before after h = elim (Bool-cases (text_eq (key_of e) k)) [
    | inl p ↦ rw (h, p) (+ℤ_assoc before (price e) (charged price k es))
    | inr q ↦ rw (h, q) refl
  ]

  -- On a Redis that keeps its laws, which pricer and sink leave alone, with a price for each event:
  -- after any history, a spend counter has grown by the sum of the prices of the events that are
  -- charged to it, whatever other customers did in between.
  pub counter-History :
      (w w' : W) (es : List UsageEvent)
      → HasPrice pricer price
      → History w es w'
      → counter (lookup w' k) ≡ counter (lookup w k) +ℤ charged price k es
  counter-History w w' es priced (done _) = sym (+ℤ_zero (counter (lookup w k)))
  counter-History w w' es priced (metered payload e rest _ _ decoded handled later) =
      counter-History _ w' rest priced later
      ∙ counter_step e rest (counter (lookup w k)) _
          (counter_after payload e w priced decoded handled)
  counter-History w w' es priced (meanwhile f _ _ _ kept later) =
      counter-History (f w) w' es priced later
      ∙ ap (λ (o : Option Text). counter o +ℤ charged price k es) kept

  -- The order of delivery does not matter: under the same conditions, two histories of the same
  -- events in different orders, from one value of a counter, leave it at one value.
  pub counter-History_perm :
      (w w' v v' : W) (es fs : List UsageEvent)
      → HasPrice pricer price
      → Perm es fs
      → counter (lookup w k) ≡ counter (lookup v k)
      → History w es w'
      → History v fs v'
      → counter (lookup w' k) ≡ counter (lookup v' k)
  counter-History_perm w w' v v' es fs priced same start one other =
      counter-History w w' es priced one
      ∙ ap (λ (z : ℤ). z +ℤ charged price k es) start
      ∙ ap (λ (z : ℤ). counter (lookup v k) +ℤ z)
          (Perm.foldr-eq (hlevel) (add_share price k) (add_share_comm price k) same (pos 0))
      ∙ sym (counter-History v v' fs priced other)
