-- ===== src/Firecracker/Network/Allocation.antt =====
-- The search for a free address (internal/firecracker/network.go `allocateIPLocked`): it ends, and it
-- misses no free address.
use function.Prelude.{
  ℕ, zero, suc, ◌+◌, ◌-◌, ◌^◌, ◌≤◌, ◌<◌, String, ◌≡◌, ◌≢◌, refl, ◌∙◌, true, false, some, arith, eqb,
  if◌then◌else◌, Bool-cases, inl, inr,
}
use function.Firecracker.Network.{
  NetworkManager, no_addresses, Allocated, allocated, refused, out_of_fuel, advance, dotted,
  is_used, is_free, allocate_from, allocate_parsed,
}

pub record IsRanged (nm : NetworkManager) : Type 0 where
  pub above : nm.subnet_first ≤ nm.next_ip
  pub below : nm.next_ip ≤ nm.subnet_last
  pub bounded : nm.subnet_last + 2 ≤ 2 ^ 32

-- Only the next address has changed, within the range.
abbrev pub Moved : NetworkManager → NetworkManager → Type 0
Moved nm nm' =
    (k : ℕ) × (nm.subnet_first ≤ k) × (k ≤ nm.subnet_last) × (nm' ≡ record nm { next_ip = k })

-- An address that a VM may have.
abbrev pub IsAddress : ℕ → NetworkManager → String → Type 0
IsAddress gateway nm ip =
    (n : ℕ) × (nm.subnet_first ≤ n) × (n ≤ nm.subnet_last) × (n ≢ gateway) × (ip ≡ dotted n)

-- All addresses but the gateway's are used.
abbrev pub IsFull : ℕ → NetworkManager → Type 0
IsFull gateway nm =
    (n : ℕ) → nm.subnet_first ≤ n → n ≤ nm.subnet_last → n ≢ gateway → is_used (dotted n) nm ≡ true

-- What the search answers.
abbrev pub Answers : ℕ → NetworkManager → Allocated → Type 0
Answers gateway nm (allocated ip) = IsAddress gateway nm ip × (is_used ip nm ≡ false)
Answers gateway nm (refused e) = (e ≡ no_addresses) × IsFull gateway nm
Answers gateway nm out_of_fuel = ⊥

abbrev pub Allocates : ℕ → NetworkManager → NetworkManager × Allocated → Type 0
Allocates gateway nm out = Moved nm (out.0) × Answers gateway nm (out.1)

-- The addresses that a search from `start` has passed are not free.
record HasPassed (gateway start : ℕ) (nm : NetworkManager) : Type 0 where
  between : (n : ℕ) → start ≤ n → n < nm.next_ip → is_free gateway n nm ≡ false
  behind :
      (n : ℕ) → nm.next_ip < start → start ≤ n → n ≤ nm.subnet_last → is_free gateway n nm ≡ false
  before :
      (n : ℕ)
      → nm.next_ip < start
      → nm.subnet_first ≤ n
      → n < nm.next_ip
      → is_free gateway n nm ≡ false

advance-IsRanged : (nm : NetworkManager) → IsRanged nm → IsRanged (advance nm)
unfolding advance
advance-IsRanged nm r = record {
  above = ground (arith, r.above, r.below, r.bounded);
  below = ground (arith, r.above, r.below, r.bounded);
  bounded = r.bounded;
}

advance_next :
    (nm : NetworkManager)
    → IsRanged nm
    → (advance nm).next_ip
      ≡ (if eqb nm.next_ip nm.subnet_last then nm.subnet_first else nm.next_ip + 1)
unfolding advance
advance_next nm r = ground (arith, r.below, r.bounded)

advance_range :
    (nm : NetworkManager)
    → ((advance nm).subnet_first ≡ nm.subnet_first) × ((advance nm).subnet_last ≡ nm.subnet_last)
unfolding advance
advance_range nm = (refl, refl)

moved : (nm : NetworkManager) → IsRanged nm → Moved nm (advance nm)
unfolding advance
moved nm r =
    ((advance nm).next_ip, (advance-IsRanged nm r).above, (advance-IsRanged nm r).below, refl)

free_answer :
    (gateway : ℕ) (nm : NetworkManager)
    → IsRanged nm
    → is_free gateway nm.next_ip nm ≡ true
    → IsAddress gateway nm (dotted nm.next_ip) × (is_used (dotted nm.next_ip) nm ≡ false)
unfolding is_free
free_answer gateway nm r h =
    ((nm.next_ip, r.above, r.below, (λ e. ground (arith, e)), refl), ground arith)

not_free :
    (gateway n : ℕ) (nm : NetworkManager)
    → is_free gateway n nm ≡ false
    → n ≢ gateway
    → is_used (dotted n) nm ≡ true
unfolding is_free
not_free gateway n nm h k = ground (arith, k)

same_free :
    (gateway n : ℕ) (nm : NetworkManager) → is_free gateway n (advance nm) ≡ is_free gateway n nm
unfolding is_free is_used advance
same_free gateway n nm = refl

-- The address that is next, and all that were passed, are taken.
taken_at :
    (gateway n : ℕ) (nm : NetworkManager)
    → is_free gateway nm.next_ip nm ≡ false
    → n ≡ nm.next_ip
    → is_free gateway n nm ≡ false
taken_at gateway n nm h e = rw e h

all_taken :
    (gateway start : ℕ) (nm : NetworkManager)
    → IsRanged nm
    → nm.subnet_first ≤ start
    → HasPassed gateway start nm
    → is_free gateway nm.next_ip nm ≡ false
    → eqb (advance nm).next_ip start ≡ true
    → IsFull gateway nm
all_taken gateway start nm r low p taken whole n above below other =
    not_free gateway n nm
      (ground (
        arith,
        advance_next nm r,
        taken_at gateway n nm taken,
        p.between n,
        p.behind n,
        p.before n,
        r.below,
      ))
      other

step-HasPassed :
    (gateway start : ℕ) (nm : NetworkManager)
    → IsRanged nm
    → nm.subnet_first ≤ start
    → HasPassed gateway start nm
    → is_free gateway nm.next_ip nm ≡ false
    → eqb (advance nm).next_ip start ≡ false
    → HasPassed gateway start (advance nm)
step-HasPassed gateway start nm r low p taken part = record {
  between = λ n h k.
      same_free gateway n nm
      ∙ ground (
        arith,
        advance_range nm,
        advance_next nm r,
        taken_at gateway n nm taken,
        p.between n,
        p.before n,
        p.behind n,
        r.below,
      );
  behind = λ n h k l.
      same_free gateway n nm
      ∙ ground (
        arith,
        advance_range nm,
        advance_next nm r,
        taken_at gateway n nm taken,
        p.between n,
        p.before n,
        p.behind n,
        r.below,
      );
  before = λ n h k l.
      same_free gateway n nm
      ∙ ground (
        arith,
        advance_range nm,
        advance_next nm r,
        taken_at gateway n nm taken,
        p.between n,
        p.before n,
        p.behind n,
        r.below,
      );
}

-- The loop, with a round left for each address that it has not passed.
allocate_from-Allocates :
    (fuel gateway start : ℕ) (nm : NetworkManager)
    → IsRanged nm
    → nm.subnet_first ≤ start
    → start ≤ nm.subnet_last
    → (start ≤ nm.next_ip → nm.subnet_last + 1 + start ≤ fuel + nm.next_ip + nm.subnet_first)
    → (nm.next_ip < start → start ≤ fuel + nm.next_ip)
    → HasPassed gateway start nm
    → Allocates gateway nm (allocate_from fuel gateway start nm)
unfolding allocate_from advance is_used
allocate_from-Allocates zero gateway start nm r low high enough wrapped p =
    absurd (ground (arith, r.above, r.below))
allocate_from-Allocates (suc fuel) gateway start nm r low high enough wrapped p =
    let nm' : NetworkManager = advance nm in
    elim (Bool-cases (is_free gateway nm.next_ip nm)) [
      | inl free ↦ rw (same_free, free) ((moved nm r), free_answer gateway nm r free)
      | inr taken ↦
          rw (same_free, taken)
            (elim (Bool-cases (eqb nm'.next_ip start)) [
              | inl whole ↦
                  rw whole (moved nm r, (refl, all_taken gateway start nm r low p taken whole))
              | inr part ↦ rw part (
                  allocate_from-Allocates fuel gateway start nm' (advance-IsRanged nm r) low high
                    (λ h. ground (arith, advance_next nm r, enough, wrapped, r.below))
                    (λ h. ground (arith, advance_next nm r, enough, wrapped, r.below))
                    (step-HasPassed gateway start nm r low p taken part))
            ])
    ]

-- Started with a next address in the range, the search ends, with one round per address: with an address
-- of the range that is not the gateway's and not used, or with an error, if each address is used.
pub allocate_parsed-Allocates :
    (gateway : ℕ) (nm : NetworkManager)
    → IsRanged nm
    → Allocates gateway nm (allocate_parsed (some gateway) nm)
unfolding allocate_parsed
allocate_parsed-Allocates gateway nm r =
    allocate_from-Allocates (suc (nm.subnet_last - nm.subnet_first)) gateway nm.next_ip nm r r.above
      r.below (λ h. omega (arith, r.above, r.below)) (λ h. omega arith)
      (record {
        between = λ n h k. absurd (omega (arith, h, k));
        behind = λ n h k l. absurd (omega (arith, h));
        before = λ n h k l. absurd (omega (arith, h));
      })
