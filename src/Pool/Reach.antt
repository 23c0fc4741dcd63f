-- ===== src/Pool/Reach.antt =====
-- The pool over sequences of calls (src/db/postgres/PgConnectionPool.cpp), with the connections that
-- callers hold. A call that waits gives up the lock, so its two halves are two steps. A caller releases
-- only a connection that it holds, so that a second release of it is no step. The pool may be
-- initialized again with the same limits, as the program does, which adds a connection even to a full
-- pool. It is closed at exit, when no connection is held.
use alarm_sys_linux.Common.{
  ℕ, suc, ◌+◌, ◌-◌, ◌≤◌, ◌<◌, ◌==◌, ltb, ◌≡◌, refl, Bool, true, false, not, ◌&&◌, ◌||◌, Option,
  none, some, List, [], ◌∷◌, length, length-append, if◌then◌else◌, arith, Bool-cases, inl, inr,
}
use alarm_sys_linux.Pool.{
  Connections, opened, take_idle, get_connection, get_after_wait, release_connection,
  remove_stale_connections, ensure_min_connections, initialize_pool, close_all_connections,
}
use alarm_sys_linux.Pool.Exclusive.{
  used, OneEach, Fresh, AllFresh, Granted, take_idle-Taken, Taken-Granted, get_connection-Granted,
  release_lem, release-OneEach, stale_lem, stale-OneEach, add_connections_lem, used-append,
  append-OneEach,
}

-- Who holds which connection: a caller and a handle.
abbrev pub Holding : Type 0
Holding = List (ℕ × ℕ)

abbrev pub holds : ℕ → Holding → Bool
holds h [] = false
holds h ((caller, k) ∷ rest) = (k == h) || holds h rest

abbrev pub holds_by : ℕ → ℕ → Holding → Bool
holds_by c h [] = false
holds_by c h ((caller, k) ∷ rest) = ((caller == c) && (k == h)) || holds_by c h rest

-- What the caller holds of the handle is given up; what others hold is not.
abbrev pub give_up : ℕ → ℕ → Holding → Holding
give_up c h [] = []
give_up c h ((caller, k) ∷ rest) =
    let later = give_up c h rest in if (caller == c) && (k == h) then later else (caller, k) ∷ later

abbrev pub HeldOnce : Holding → Type 0
HeldOnce [] = Unit {0}
HeldOnce ((caller, h) ∷ rest) = (holds h rest ≡ false) × HeldOnce rest

-- The index `extra` counts the times that the pool was initialized while it was full.
pub data Reach (max_connections min_connections idle_timeout : ℕ)
    : ℕ → Connections → Holding → Type 0 where
  start : Reach max_connections min_connections idle_timeout 0 [] []
  initialized :
      {extra : ℕ} {conns : Connections} {held : Holding} (now : ℕ) (created : Option ℕ)
      → Reach max_connections min_connections idle_timeout extra conns held
      → Fresh created conns
      → Reach max_connections min_connections idle_timeout
          (if ltb (length conns) max_connections then extra else suc extra)
          (initialize_pool now created conns).0
          held
  closed :
      {extra : ℕ} {conns : Connections}
      → Reach max_connections min_connections idle_timeout extra conns []
      → Reach max_connections min_connections idle_timeout 0 (close_all_connections conns) []
  got :
      {extra : ℕ} {conns after : Connections} {held : Holding} (usable : ℕ → Bool) (now : ℕ)
      (created : Option ℕ) (caller h : ℕ)
      → Reach max_connections min_connections idle_timeout extra conns held
      → Fresh created conns
      → get_connection usable now max_connections created conns ≡ some (after, h)
      → Reach max_connections min_connections idle_timeout extra after ((caller, h) ∷ held)
  got_after_wait :
      {extra : ℕ} {conns after : Connections} {held : Holding} (usable : ℕ → Bool)
      (now caller h : ℕ)
      → Reach max_connections min_connections idle_timeout extra conns held
      → get_after_wait usable now conns ≡ some (after, h)
      → Reach max_connections min_connections idle_timeout extra after ((caller, h) ∷ held)
  released :
      {extra : ℕ} {conns : Connections} {held : Holding} (now caller h : ℕ)
      → Reach max_connections min_connections idle_timeout extra conns held
      → 0 < h
      → holds_by caller h held ≡ true
      → Reach max_connections min_connections idle_timeout extra
          (release_connection h now conns)
          (give_up caller h held)
  swept :
      {extra : ℕ} {conns : Connections} {held : Holding} (now : ℕ)
      → Reach max_connections min_connections idle_timeout extra conns held
      → Reach max_connections min_connections idle_timeout extra
          (remove_stale_connections now idle_timeout conns)
          held
  filled :
      {extra : ℕ} {conns : Connections} {held : Holding} (now : ℕ) (answers : List (Option ℕ))
      → Reach max_connections min_connections idle_timeout extra conns held
      → AllFresh now answers conns
      → Reach max_connections min_connections idle_timeout extra
          (ensure_min_connections now min_connections answers conns)
          held

-- The invariant: the connections are distinct and within the bound, those in use are those that are
-- held, and none is held twice.
pub record IsPool (bound : ℕ) (conns : Connections) (held : Holding) : Type 0 where
  pub one_each : OneEach conns
  pub bounded : length conns ≤ bound
  pub used_held : (g : ℕ) → used g conns ≡ holds g held
  pub once : HeldOnce held

holds_by-holds : (c h : ℕ) (held : Holding) → holds_by c h held ≡ true → holds h held ≡ true
holds_by-holds c h [] e = cc
holds_by-holds c h ((caller, k) ∷ rest) e = ground (arith, e, holds_by-holds c h rest)

-- A handle that is not held is not held after a release, and one that is not released stays.
holds-give_up_less :
    (c h g : ℕ) (held : Holding) → holds g held ≡ false → holds g (give_up c h held) ≡ false
holds-give_up_less c h g [] e = refl
holds-give_up_less c h g ((caller, k) ∷ rest) e = ground (arith, e, holds-give_up_less c h g rest)

holds-give_up_other :
    (c h g : ℕ) (held : Holding) → (h == g) ≡ false → holds g (give_up c h held) ≡ holds g held
holds-give_up_other c h g [] e = refl
holds-give_up_other c h g ((caller, k) ∷ rest) e =
    ground (arith, e, holds-give_up_other c h g rest e)

-- The one who holds a handle gives it up, and nobody holds it then.
holds-give_up_same :
    (c h : ℕ) (held : Holding)
    → HeldOnce held
    → holds_by c h held ≡ true
    → holds h (give_up c h held) ≡ false
holds-give_up_same c h [] o e = cc
holds-give_up_same c h ((caller, k) ∷ rest) o e = ground (
  arith,
  o,
  e,
  holds-give_up_same c h rest o.1,
  holds-give_up_less c h h rest,
  holds_by-holds c h rest,
)

holds-give_up :
    (c h g : ℕ) (held : Holding)
    → HeldOnce held
    → holds_by c h held ≡ true
    → holds g (give_up c h held) ≡ (not (h == g) && holds g held)
holds-give_up c h g held o e = elim (Bool-cases (h == g)) [
  | inl same ↦
      let is : h ≡ g = ground (arith, same) in ground (arith, is, holds-give_up_same c h held o e)
  | inr other ↦ ground (arith, other, holds-give_up_other c h g held other)
]

give_up-HeldOnce : (c h : ℕ) (held : Holding) → HeldOnce held → HeldOnce (give_up c h held)
give_up-HeldOnce c h [] o = tt
give_up-HeldOnce c h ((caller, k) ∷ rest) o =
    ground (arith, o, give_up-HeldOnce c h rest o.1, holds-give_up_less c h k rest)

step-IsPool :
    (bound : ℕ) (conns after : Connections) (held : Holding) (caller h : ℕ)
    (r : Option (Connections × ℕ))
    → IsPool bound conns held
    → ((g : ℕ) → Granted bound g conns r)
    → r ≡ some (after, h)
    → IsPool bound after ((caller, h) ∷ held)
step-IsPool bound conns after held caller h none p f e = cc
step-IsPool bound conns after held caller h (some (a, k)) p f e =
    let same : (a ≡ after) × (k ≡ h) = ground (arith, e) in
    record {
      one_each = ground (same, arith, f h);
      bounded = ground (same, arith, f h);
      used_held = λ g. ground (same, arith, f g, p.used_held g);
      once = ground (same, arith, f h, p.used_held h, p.once);
    }

empty-IsPool : (bound : ℕ) → IsPool bound [] []
empty-IsPool bound = record {
  one_each = tt;
  bounded = omega arith;
  used_held = λ g. refl;
  once = tt;
}

-- One more initialization of a full pool, and its bound.
abbrev extra_after : ℕ → ℕ → Connections → ℕ
extra_after max_connections extra conns =
    if ltb (length conns) max_connections then extra else suc extra

initialized-IsPool :
    (max_connections extra now : ℕ) (created : Option ℕ) (conns : Connections) (held : Holding)
    → IsPool (max_connections + extra) conns held
    → Fresh created conns
    → IsPool
        (max_connections + extra_after max_connections extra conns)
        (initialize_pool now created conns).0
        held
unfolding initialize_pool
initialized-IsPool max_connections extra now none conns held p f = record {
  one_each = p.one_each;
  bounded = ground (arith, p.bounded);
  used_held = p.used_held;
  once = p.once;
}
initialized-IsPool max_connections extra now (some h) conns held p f =
    let c = opened h false now in
    record {
      one_each = append-OneEach conns c p.one_each f.0;
      bounded = ground (arith, p.bounded, length-append conns (c ∷ []));
      used_held = λ g. ground (arith, used-append g conns c, p.used_held g);
      once = p.once;
    }

-- Over any sequence of calls of the pool, initializations of a pool that is in use among them, where
-- libpq gives new handles, callers release only what they hold, the smallest number of connections is
-- not above the largest, and the pool is closed only when no connection is held: no connection stands
-- twice in the pool, the connections in use are exactly those that callers hold, no connection is held
-- by two callers, and there are never more than the largest number and one for each time that the pool
-- was initialized while it was full.
pub Reach-IsPool :
    {max_connections min_connections idle_timeout extra : ℕ} {conns : Connections} {held : Holding}
    → min_connections ≤ max_connections
    → Reach max_connections min_connections idle_timeout extra conns held
    → IsPool (max_connections + extra) conns held
unfolding release_connection get_after_wait ensure_min_connections close_all_connections
Reach-IsPool {max_connections = m} l start = empty-IsPool (m + 0)
Reach-IsPool {max_connections = m} l (initialized {extra} {conns} {held} now created r f) =
    initialized-IsPool m extra now created conns held (Reach-IsPool l r) f
Reach-IsPool {max_connections = m} l (closed r) = empty-IsPool (m + 0)
Reach-IsPool {max_connections = m} l
      (got {extra} {conns} {after} {held} usable now created caller h r f e) =
    let p = Reach-IsPool l r in
    step-IsPool (m + extra) conns after held caller h (get_connection usable now m created conns) p
      (λ g.
        get_connection-Granted usable now m (m + extra) g created conns (omega arith) p.one_each f
          p.bounded)
      e
Reach-IsPool {max_connections = m} l
      (got_after_wait {extra} {conns} {after} {held} usable now caller h r e) =
    let p = Reach-IsPool l r in
    step-IsPool (m + extra) conns after held caller h (take_idle usable now conns) p
      (λ g.
        Taken-Granted (m + extra) g conns (take_idle usable now conns) p.bounded
          (take_idle-Taken usable now g conns p.one_each))
      e
Reach-IsPool l (released {extra} {conns} {held} now caller h r z b) =
    let p = Reach-IsPool l r in
    record {
      one_each = ground (arith, z, release-OneEach h now conns p.one_each, p.one_each);
      bounded = ground (arith, z, release_lem h now h conns p.one_each, p.bounded);
      used_held = λ g. ground (
        arith,
        z,
        release_lem h now g conns p.one_each,
        p.used_held g,
        holds-give_up caller h g held p.once b,
      );
      once = give_up-HeldOnce caller h held p.once;
    }
Reach-IsPool {idle_timeout = idle} l (swept {extra} {conns} {held} now r) =
    let p = Reach-IsPool l r in
    record {
      one_each = stale-OneEach now idle conns p.one_each;
      bounded = ground (arith, stale_lem now idle 0 conns, p.bounded);
      used_held = λ g. ground (arith, stale_lem now idle g conns, p.used_held g);
      once = p.once;
    }
Reach-IsPool {min_connections = k} l (filled {extra} {conns} {held} now answers r f) =
    let p = Reach-IsPool l r in
    let n = k - length conns in
    record {
      one_each = (add_connections_lem now n 0 answers conns p.one_each f).0;
      bounded =
          ground (arith, l, add_connections_lem now n 0 answers conns p.one_each f, p.bounded);
      used_held = λ g.
          ground (arith, add_connections_lem now n g answers conns p.one_each f, p.used_held g);
      once = p.once;
    }
