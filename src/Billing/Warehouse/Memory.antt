-- ===== src/Billing/Warehouse/Memory.antt =====
-- A table `usage_events` in memory with one open batch, which never fails. It is one instance of the
-- interface and meets its laws.
use marginpilot.Base.{
  ℕ, ◌%◌, ◌^◌, ◌≡◌, refl, arith, Text, text_eq, text_eq_iff, List, [], ◌∷◌, ◌++◌, map, Mem, ◌⊎◌,
  inl, inr, Bool-cases, sym, ok,
}
use marginpilot.External.ClickHouse.{Connection}
use marginpilot.Metering.Sink.{Row}
use marginpilot.Billing.Cogs.{UsageSums}
use marginpilot.Billing.Warehouse.{IsWarehouse, is_counted, total, sum_of}

-- The rows of the table, and those of the batch.
pub record Tables : Type 0 where
  pub stored : List Row
  pub batch : List Row

module _ {W : Type 0} (tables : W → Tables) (put : Tables → W → W)
    (tables-put : (t : Tables) (w : W) → tables (put t w) ≡ t) where
  abbrev pub memory_tables : Connection W Row
  memory_tables = record {
    prepare_batch = λ w. (ok 0, put (record { stored = (tables w).stored; batch = [] }) w);
    append = λ b r w.
        (ok tt, put (record { stored = (tables w).stored; batch = r ∷ (tables w).batch }) w);
    send = λ b w.
        (ok tt, put (record { stored = (tables w).batch ++ (tables w).stored; batch = [] }) w);
  }

  abbrev pub memory_sums : UsageSums W
  memory_sums = record {
    select_tenant = λ tenant p w. (
      ok (record {
        items =
            map (sum_of tenant p (tables w).stored)
              (map (λ (r : Row). r.customer_id) (tables w).stored);
        final = ok tt;
      }),
      w,
    );
    select_customer =
        λ tenant customer p w. (ok (total tenant customer p (tables w).stored % 2 ^ 64), w);
  }

  present :
      (tenant : Text) (p : ℕ) (rs : List Row) (customer : Text)
      → Mem customer (map (λ (r : Row). r.customer_id) rs) ⊎ (total tenant customer p rs ≡ 0)
  unfolding total is_counted
  present tenant p [] customer = inr refl
  present tenant p (r ∷ rs) customer = elim (Bool-cases (text_eq r.customer_id customer)) [
    | inl h ↦ inl (inl (sym ((text_eq_iff r.customer_id customer).0 h)))
    | inr h ↦ elim (present tenant p rs customer) [
      | inl member ↦ inl (inr member)
      | inr absent ↦ inr (ground (arith, h, absent))
    ]
  ]

  -- The laws are met, so they can be assumed together.
  pub memory_tables-IsWarehouse :
      IsWarehouse memory_tables memory_sums (λ w. (tables w).stored) (λ w b. (tables w).batch)
  memory_tables-IsWarehouse = record {
    rows-prepare = λ w. rw (tables-put _ w) refl;
    filled-prepare = λ b w h. rw (tables-put _ w) refl;
    rows-append = λ b r w. rw (tables-put _ w) refl;
    filled-append = λ b r w h. rw (tables-put _ w) refl;
    rows-send = λ b w h. rw (tables-put _ w) refl;
    select_customer-ok = λ tenant customer p n w h. cc;
    select_tenant-ok = λ tenant p w found h whole. (
      map (λ (r : Row). r.customer_id) (tables w).stored,
      cc,
      present tenant p (tables w).stored,
    );
  }
