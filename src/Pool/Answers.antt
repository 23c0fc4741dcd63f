-- ===== src/Pool/Answers.antt =====
-- When the pool answers, and what its statistics count (src/db/postgres/PgConnectionPool.cpp).
use alarm_sys_linux.Common.{
  ℕ, ◌+◌, ◌≡◌, refl, Bool, false, not, ◌&&◌, ◌||◌, Option, none, some, is_some, [], ◌∷◌, length,
  ltb, arith,
}
use alarm_sys_linux.Pool.{
  PgPooledConnection, Connections, prepend, take_idle, get_new, or_then, get_connection,
  count_active, count_idle, get_stats,
}

-- Whether the pool has an idle connection that is usable.
abbrev pub has_idle : (ℕ → Bool) → Connections → Bool
has_idle usable [] = false
has_idle usable (conn ∷ rest) = (not conn.in_use && usable conn.connection) || has_idle usable rest

is_some-prepend :
    (conn : PgPooledConnection) (r : Option (Connections × ℕ))
    → is_some (prepend conn r) ≡ is_some r
is_some-prepend conn none = refl
is_some-prepend conn (some r) = refl

is_some-or_then :
    (a b : Option (Connections × ℕ)) → is_some (or_then a b) ≡ (is_some a || is_some b)
is_some-or_then none b = refl
is_some-or_then (some r) b = refl

is_some-take_idle :
    (usable : ℕ → Bool) (now : ℕ) (conns : Connections)
    → is_some (take_idle usable now conns) ≡ has_idle usable conns
unfolding take_idle
is_some-take_idle usable now [] = refl
is_some-take_idle usable now (conn ∷ rest) =
    ground
      (arith, is_some-take_idle usable now rest, is_some-prepend conn (take_idle usable now rest))

-- A call for a connection has an answer before its wait exactly when an idle connection is usable, or
-- the pool is not full and libpq opens a connection.
pub is_some-get_connection :
    (usable : ℕ → Bool) (now max_connections : ℕ) (created : Option ℕ) (conns : Connections)
    → is_some (get_connection usable now max_connections created conns)
      ≡ (has_idle usable conns || (ltb (length conns) max_connections && is_some created))
unfolding get_connection get_new
is_some-get_connection usable now max_connections none conns =
    ground
      (arith, is_some-take_idle usable now conns, is_some-or_then (take_idle usable now conns) none)
is_some-get_connection usable now max_connections (some h) conns = ground (
  arith,
  is_some-take_idle usable now conns,
  is_some-or_then (take_idle usable now conns) (get_new now max_connections (some h) conns),
)

-- The counts of the statistics add up to the number of connections.
pub get_stats_lem :
    (conns : Connections)
    → let stats = get_stats conns in
      stats.active_connections + stats.idle_connections ≡ stats.total_connections
unfolding get_stats count_active count_idle
get_stats_lem [] = refl
get_stats_lem (conn ∷ rest) = ground (arith, get_stats_lem rest)
