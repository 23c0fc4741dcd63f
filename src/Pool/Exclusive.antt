-- ===== src/Pool/Exclusive.antt =====
-- Who holds the connections of the pool (src/db/postgres/PgConnectionPool.cpp), over any sequence of
-- calls.
use alarm_sys_linux.Common.{
  ℕ, zero, suc, ◌+◌, ◌≤◌, ◌<◌, ◌==◌, ◌≡◌, refl, Bool, true, false, not, ◌&&◌, ◌||◌, Option, none,
  some, List, [], ◌∷◌, ◌++◌, length, length-append, arith,
}
use alarm_sys_linux.Pool.{
  PgPooledConnection, Connections, prepend, take_idle, opened, get_new, or_then, get_connection,
  release_in, remove_stale_connections, add_connections,
}

abbrev pub knows : ℕ → Connections → Bool
knows handle [] = false
knows handle (conn ∷ rest) = (conn.connection == handle) || knows handle rest

abbrev pub used : ℕ → Connections → Bool
used handle [] = false
used handle (conn ∷ rest) = ((conn.connection == handle) && conn.in_use) || used handle rest

abbrev pub OneEach : Connections → Type 0
OneEach [] = Unit {0}
OneEach (conn ∷ rest) = (knows conn.connection rest ≡ false) × OneEach rest

pub used-knows : (g : ℕ) (conns : Connections) → knows g conns ≡ false → used g conns ≡ false
used-knows g [] h = refl
used-knows g (conn ∷ rest) h = ground (arith, used-knows g rest)

-- What it means to hand out a connection of the pool, as seen for the handle `g`.
abbrev pub Taken : ℕ → Connections → Option (Connections × ℕ) → Type 0
Taken g conns none = Unit {0}
Taken g conns (some (after, h)) =
    (used h conns ≡ false)
    × (knows h conns ≡ true)
    × OneEach after
    × (length after ≡ length conns)
    × (knows g after ≡ knows g conns)
    × (used g after ≡ ((h == g) || used g conns))

prepend-Taken :
    (g : ℕ) (conn : PgPooledConnection) (rest : Connections) (r : Option (Connections × ℕ))
    → OneEach (conn ∷ rest)
    → Taken g rest r
    → Taken conn.connection rest r
    → Taken g (conn ∷ rest) (prepend conn r)
prepend-Taken g conn rest none o p q = tt
prepend-Taken g conn rest (some (after, h)) o p q = ground (arith, o, p, q)

pub take_idle-Taken :
    (usable : ℕ → Bool) (now g : ℕ) (conns : Connections)
    → OneEach conns
    → Taken g conns (take_idle usable now conns)
unfolding take_idle
take_idle-Taken usable now g [] o = tt
take_idle-Taken usable now g (conn ∷ rest) o = ground (
  arith,
  o,
  used-knows conn.connection rest,
  prepend-Taken g conn rest (take_idle usable now rest) o (take_idle-Taken usable now g rest o.1)
      (take_idle-Taken usable now conn.connection rest o.1),
)

pub used-append :
    (g : ℕ) (conns : Connections) (c : PgPooledConnection)
    → used g (conns ++ c ∷ []) ≡ (used g conns || ((c.connection == g) && c.in_use))
used-append g [] c = ground arith
used-append g (conn ∷ rest) c = ground (arith, used-append g rest c)

knows-append :
    (g : ℕ) (conns : Connections) (c : PgPooledConnection)
    → knows g (conns ++ c ∷ []) ≡ (knows g conns || (c.connection == g))
knows-append g [] c = ground arith
knows-append g (conn ∷ rest) c = ground (arith, knows-append g rest c)

pub append-OneEach :
    (conns : Connections) (c : PgPooledConnection)
    → OneEach conns
    → knows c.connection conns ≡ false
    → OneEach (conns ++ c ∷ [])
append-OneEach [] c o k = (refl, tt)
append-OneEach (conn ∷ rest) c o k =
    ground (arith, o, append-OneEach rest c o.1, knows-append conn.connection rest c)

-- The handle that libpq gives is new, and no null pointer.
abbrev pub Fresh : Option ℕ → Connections → Type 0
Fresh none conns = Unit {0}
Fresh (some h) conns = (knows h conns ≡ false) × (0 < h)

abbrev pub Granted : ℕ → ℕ → Connections → Option (Connections × ℕ) → Type 0
Granted bound g conns none = Unit {0}
Granted bound g conns (some (after, h)) =
    (used h conns ≡ false)
    × OneEach after
    × (length after ≤ bound)
    × (used g after ≡ ((h == g) || used g conns))

pub Taken-Granted :
    (bound g : ℕ) (conns : Connections) (r : Option (Connections × ℕ))
    → length conns ≤ bound
    → Taken g conns r
    → Granted bound g conns r
Taken-Granted bound g conns none l t = tt
Taken-Granted bound g conns (some (after, h)) l t = ground (arith, t)

get_new-Granted :
    (now max_connections bound g : ℕ) (created : Option ℕ) (conns : Connections)
    → max_connections ≤ bound
    → OneEach conns
    → Fresh created conns
    → Granted bound g conns (get_new now max_connections created conns)
unfolding get_new
get_new-Granted now max_connections bound g none conns b o f = tt
get_new-Granted now max_connections bound g (some h) conns b o f =
    let c = opened h true now in
    ground (
      arith,
      b,
      f,
      used-append g conns c,
      append-OneEach conns c o,
      used-knows h conns,
      length-append conns (c ∷ []),
    )

or_then-Granted :
    (bound g : ℕ) (conns : Connections) (a b : Option (Connections × ℕ))
    → Granted bound g conns a
    → Granted bound g conns b
    → Granted bound g conns (or_then a b)
or_then-Granted bound g conns none b p q = q
or_then-Granted bound g conns (some r) b p q = p

pub get_connection-Granted :
    (usable : ℕ → Bool) (now max_connections bound g : ℕ) (created : Option ℕ) (conns : Connections)
    → max_connections ≤ bound
    → OneEach conns
    → Fresh created conns
    → length conns ≤ bound
    → Granted bound g conns (get_connection usable now max_connections created conns)
unfolding get_connection
get_connection-Granted usable now max_connections bound g created conns b o f l =
    or_then-Granted bound g conns (take_idle usable now conns)
      (get_new now max_connections created conns)
      (Taken-Granted bound g conns (take_idle usable now conns) l
        (take_idle-Taken usable now g conns o))
      (get_new-Granted now max_connections bound g created conns b o f)

pub release_lem :
    (h now g : ℕ) (conns : Connections)
    → OneEach conns
    → let after = release_in h now conns in
      (knows g after ≡ knows g conns)
      × (length after ≡ length conns)
      × (used g after ≡ (not (h == g) && used g conns))
unfolding release_in
release_lem h now g [] o = ground arith
release_lem h now g (conn ∷ rest) o =
    ground (arith, o, release_lem h now g rest o.1, used-knows g rest)

pub release-OneEach :
    (h now : ℕ) (conns : Connections) → OneEach conns → OneEach (release_in h now conns)
unfolding release_in
release-OneEach h now [] o = tt
release-OneEach h now (conn ∷ rest) o =
    ground (arith, o, release-OneEach h now rest o.1, release_lem h now conn.connection rest o.1)

pub stale_lem :
    (now idle_timeout g : ℕ) (conns : Connections)
    → let after = remove_stale_connections now idle_timeout conns in
      (knows g conns ≡ false → knows g after ≡ false)
      × (length after ≤ length conns)
      × (used g after ≡ used g conns)
unfolding remove_stale_connections
stale_lem now idle_timeout g [] = ground arith
stale_lem now idle_timeout g (conn ∷ rest) = ground (arith, stale_lem now idle_timeout g rest)

pub stale-OneEach :
    (now idle_timeout : ℕ) (conns : Connections)
    → OneEach conns
    → OneEach (remove_stale_connections now idle_timeout conns)
unfolding remove_stale_connections
stale-OneEach now idle_timeout [] o = tt
stale-OneEach now idle_timeout (conn ∷ rest) o = ground (
  arith,
  o,
  stale-OneEach now idle_timeout rest o.1,
  stale_lem now idle_timeout conn.connection rest,
)

-- The handles that libpq gives in a row are new, each with those before it.
abbrev pub AllFresh : ℕ → List (Option ℕ) → Connections → Type 0
AllFresh now [] conns = Unit {0}
AllFresh now (none ∷ answers) conns = Unit {0}
AllFresh now (some h ∷ answers) conns =
    (knows h conns ≡ false) × AllFresh now answers (conns ++ opened h false now ∷ [])

pub add_connections_lem :
    (now n g : ℕ) (answers : List (Option ℕ)) (conns : Connections)
    → OneEach conns
    → AllFresh now answers conns
    → let after = add_connections now n answers conns in
      OneEach after × (length after ≤ length conns + n) × (used g after ≡ used g conns)
unfolding add_connections
add_connections_lem now zero g answers conns o f = ground (arith, o)
add_connections_lem now (suc n) g [] conns o f = ground (arith, o)
add_connections_lem now (suc n) g (none ∷ answers) conns o f = ground (arith, o)
add_connections_lem now (suc n) g (some h ∷ answers) conns o f =
    let c = opened h false now in
    ground (
      arith,
      add_connections_lem now n g answers (conns ++ c ∷ []) (append-OneEach conns c o f.0) f.1,
      length-append conns (c ∷ []),
      used-append g conns c,
    )
