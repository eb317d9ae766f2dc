-- ===== src/Ratelimit/Gate/Slots.antt =====
-- No path through a slot loses a place, and the wait for an open breaker is bounded.
use email_extractor.Common.{
  ℕ, zero, suc, ◌+◌, ◌*◌, ◌≤◌, ◌<◌, ◌≡◌, ◌≢◌, refl, ap, ◌∙◌, Option-cases, inl, inr, Bool-cases,
  String, Bool, true, false, List, [], ◌∷◌, some, arith, if◌then◌else◌, length, get-put, string_eq,
}
use email_extractor.Ratelimit.Breaker.{Config, Breaker, Verdict, admitted, circuit_open, check}
use email_extractor.Ratelimit.Gate.{
  Gate, domain_free, set_domain, max_breaker_wait, nap, Waited, passed, refused, waiting,
  await_breaker, Course, Entry, next_round, entered, raised_open, cancelled, take_place,
  take_tokens, enter_bucket, enter_domain, enter_global, enter_waited, enter, exit,
}

-- The free places of a gate, all in all and for each domain.
pub record SamePlaces (g h : Gate) : Type 0 where
  pub limit : h.per_domain_limit ≡ g.per_domain_limit
  pub free : h.free ≡ g.free
  pub domains : (d : String) → domain_free d h ≡ domain_free d g

-- One place of a domain has been taken.
pub record PlaceTaken (domain : String) (g h : Gate) : Type 0 where
  pub limit : h.per_domain_limit ≡ g.per_domain_limit
  pub free : h.free + 1 ≡ g.free
  pub own : domain_free domain h + 1 ≡ domain_free domain g
  pub others : (d : String) → d ≢ domain → domain_free d h ≡ domain_free d g

-- What an entry leaves behind, by how it ended.
abbrev pub Leaves : String → Gate → Entry × Gate → Type 0
Leaves domain g (entered, h) = PlaceTaken domain g h
Leaves domain g (raised_open, h) = SamePlaces g h
Leaves domain g (cancelled, h) = SamePlaces g h

domain_free-set :
    (d domain : String) (n : ℕ) (g : Gate)
    → domain_free d (set_domain domain n g)
      ≡ (if string_eq.beq domain d then n else domain_free d g)
unfolding domain_free set_domain
domain_free-set d domain n g = ground (arith, get-put domain d n g.per_domain)

domain_free-exit :
    (d domain : String) (g : Gate)
    → domain_free d (exit domain g)
      ≡ (if string_eq.beq domain d then domain_free domain g + 1 else domain_free d g)
unfolding exit domain_free set_domain
domain_free-exit d domain g =
    ground (arith, get-put domain d (domain_free domain g + 1) g.per_domain)

beq_false : (d domain : String) → string_eq.beq domain d ≡ false → d ≢ domain
beq_false d domain e same = ground (arith, string_eq.beq_iff domain d)

-- Leaving gives back what one entry took.
pub exit-PlaceTaken :
    (domain : String) (g h : Gate) → PlaceTaken domain g h → SamePlaces g (exit domain h)
exit-PlaceTaken domain g h p = record {
  limit = unfold exit set_domain in p.limit;
  free = unfold exit set_domain in p.free;
  domains = λ d. elim (Bool-cases (string_eq.beq domain d)) [
    | inl e ↦
        let same = (string_eq.beq_iff domain d).0 e in
        rw (domain_free-exit d domain h, e) (p.own ∙ ap (λ k. domain_free k g) same)
    | inr e ↦ rw (domain_free-exit d domain h, e) (p.others d (beq_false d domain e))
  ];
}

enter_bucket-Leaves :
    (domain : String) (c : Course) (g h : Gate)
    → PlaceTaken domain g h
    → Leaves domain g (enter_bucket domain c h)
unfolding enter_bucket domain_free
enter_bucket-Leaves domain c g h p =
    let bucket = (take_tokens c.bucket_times h.bucket).1 in
    let back =
      exit-PlaceTaken domain g (record h { bucket = bucket })
        (record { limit = p.limit; free = p.free; own = p.own; others = p.others }) in
    elim (Bool-cases (take_tokens c.bucket_times h.bucket).0) [
      | inl e ↦ rw e (record { limit = p.limit; free = p.free; own = p.own; others = p.others })
      | inr e ↦ rw e (unfold exit in back)
    ]

take_place-some : (ready : Bool) (k : ℕ) {n : ℕ} → take_place ready k ≡ some n → n + 1 ≡ k
unfolding take_place
take_place-some false k e = cc
take_place-some true zero e = cc
take_place-some true (suc k) e = ground arith

-- A semaphore made for a domain that had none is full.
domain_free-made :
    (d domain : String) (n : ℕ) (h : Gate)
    → domain_free d (record (set_domain domain (domain_free domain h) h) { free = n })
      ≡ domain_free d h
unfolding domain_free set_domain
domain_free-made d domain n h =
    ground (arith, get-put domain d (domain_free domain h) h.per_domain, string_eq.beq_iff domain d)

enter_domain-Leaves :
    (domain : String) (c : Course) (g h : Gate)
    → h.per_domain_limit ≡ g.per_domain_limit
    → h.free + 1 ≡ g.free
    → ((d : String) → domain_free d h ≡ domain_free d g)
    → Leaves domain g (enter_domain domain c h)
unfolding enter_domain
enter_domain-Leaves domain c g h l f same =
    elim (Option-cases (take_place c.domain_ready (domain_free domain h))) [
      | inl e ↦
          rw (e, enter_domain)
            (record {
              limit = unfold set_domain in l;
              free = unfold set_domain in f;
              domains = λ d. domain_free-made d domain (h.free + 1) h ∙ same d;
            })
      | inr (n, e) ↦
          rw (e, enter_domain)
            (enter_bucket-Leaves domain c g (set_domain domain n h) (record {
              limit = unfold set_domain in l;
              free = unfold set_domain in f;
              own = own n e;
              others = λ d ne. others n d ne;
            }))
    ]
  where
    own :
        (n : ℕ)
        → take_place c.domain_ready (domain_free domain h) ≡ some n
        → domain_free domain (set_domain domain n h) + 1 ≡ domain_free domain g
    own n e = ground (
      arith,
      domain_free-set domain domain n h,
      string_eq.beq_iff domain domain,
      take_place-some c.domain_ready (domain_free domain h) e,
      same domain,
    )

    others :
        (n : ℕ) (d : String) → d ≢ domain → domain_free d (set_domain domain n h) ≡ domain_free d g
    others n d ne = ground (arith, domain_free-set d domain n h, string_eq.beq_iff domain d, same d)

enter_global-Leaves :
    (domain : String) (c : Course) (g h : Gate)
    → SamePlaces g h
    → Leaves domain g (enter_global domain c h)
unfolding enter_global domain_free
enter_global-Leaves domain c g h p = elim (Option-cases (take_place c.global_ready h.free)) [
  | inl e ↦ rw (e, enter_global) p
  | inr (n, e) ↦
      rw (e, enter_global)
        (enter_domain-Leaves domain c g (record h { free = n }) p.limit
          (take_place-some c.global_ready h.free e ∙ p.free) p.domains)
]

enter_waited-Leaves :
    (domain : String) (c : Course) (w : Waited) (g h : Gate)
    → SamePlaces g h
    → Leaves domain g (enter_waited domain c w h)
unfolding enter_waited
enter_waited-Leaves domain c passed g h p = enter_global-Leaves domain c g h p
enter_waited-Leaves domain c refused g h p = p
enter_waited-Leaves domain c waiting g h p = p

-- However an entry ends, the places come out right: a call that enters holds one place of its
-- domain and one of all, and a call that raises or is cancelled at any of its waits holds none.
pub enter-Leaves :
    (cfg : Config) (domain : String) (c : Course) (g : Gate)
    → Leaves domain g (enter cfg domain c g)
unfolding enter domain_free
enter-Leaves cfg domain c g =
    let (waited, _, b) = await_breaker cfg c.rounds 0 g.breaker in
    enter_waited-Leaves domain c waited g (record g { breaker = b })
      (record { limit = refl; free = refl; domains = λ d. refl })

nap-le : (retry_in jitter : ℕ) → 100_000 ≤ nap retry_in jitter
unfolding nap
nap-le retry_in jitter = grind arith

-- The loop is over, and slept no longer than it may.
abbrev pub Ends : Waited × ℕ × Breaker → Type 0
Ends (how, slept, b) = (how ≢ waiting) × (slept ≤ max_breaker_wait)

next_round-Ends :
    (jitter waited : ℕ) (b : Breaker) (again : ℕ → Waited × ℕ × Breaker) (v : Verdict)
    → waited ≤ max_breaker_wait
    → ((w : ℕ) → waited + 100_000 ≤ w → w ≤ max_breaker_wait → Ends (again w))
    → Ends (next_round jitter waited b again v)
unfolding next_round
next_round-Ends jitter waited b again admitted h k = ground arith
next_round-Ends jitter waited b again (circuit_open r) h k =
    ground (arith, nap-le r jitter, k (waited + nap r jitter))

await_breaker-Ends :
    (cfg : Config) (rounds : List (ℕ × ℕ)) (waited : ℕ) (b : Breaker)
    → max_breaker_wait < waited + 100_000 * length rounds
    → waited ≤ max_breaker_wait
    → Ends (await_breaker cfg rounds waited b)
unfolding await_breaker
await_breaker-Ends cfg [] waited b h k = absurd (omega arith)
await_breaker-Ends cfg ((now, jitter) ∷ rounds) waited b h k =
    let (verdict, b') = check cfg now b in
    next_round-Ends jitter waited b' (λ w. await_breaker cfg rounds w b') verdict k
      λ w more fits. await_breaker-Ends cfg rounds w b' (omega arith) fits

-- Whatever the breaker does, 61 rounds are enough for the loop to end, and it sleeps at most the
-- 30 seconds of `MAX_BREAKER_WAIT_S`.
pub await_breaker-bounded :
    (cfg : Config) (rounds : List (ℕ × ℕ)) (b : Breaker)
    → 61 ≤ length rounds
    → Ends (await_breaker cfg rounds 0 b)
await_breaker-bounded cfg rounds b h = await_breaker-Ends cfg rounds 0 b (omega arith) (omega arith)
