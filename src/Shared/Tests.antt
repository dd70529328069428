-- ===== src/Shared/Tests.antt =====
-- The spend keys of concrete customers and months.
use marginpilot.Base.{◌*◌, codes, ◌≡◌, ◌↔◌, refl, arith}
use marginpilot.Base.Decimal.{pad, print_ℕ}
use marginpilot.Shared.Calendar.{Time, year, month}
use marginpilot.Shared.Spend.{key, period}
use marginpilot.Shared.Spend.Keys.{key_iff}

-- The last second of December 2025 and the first of January 2026.
abbrev december : Time
december = 63_929_260_799 * 1_000_000_000

abbrev january : Time
january = 63_929_260_800 * 1_000_000_000

key_of_december : key (codes "acme") (codes "c1") december ≡ codes "spend:acme:c1:202512"
unfolding key period pad year month print_ℕ
key_of_december = refl

key_of_january : key (codes "acme") (codes "c1") january ≡ codes "spend:acme:c1:202601"
unfolding key period pad year month print_ℕ
key_of_january = refl

key_iff_example :
    (key (codes "acme") (codes "c1") december ≡ key (codes "acme") (codes "c1") january) ↔ (
      (codes "acme" ≡ codes "acme")
      × (codes "c1" ≡ codes "c1")
      × (year december ≡ year january)
      × (month december ≡ month january))
key_iff_example =
    key_iff (codes "acme") (codes "acme") (codes "c1") (codes "c1") december january (ground arith)
      (ground arith) (unfold year in omega arith) (unfold year in omega arith)
