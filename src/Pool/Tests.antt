-- ===== src/Pool/Tests.antt =====
-- The pool of connections on concrete calls.
use alarm_sys_linux.Common.{ℕ, ◌≡◌, refl, Bool, true, false, none, some, is_some, [], ◌∷◌, arith}
use alarm_sys_linux.Pool.{
  Connections, opened, take_idle, get_new, get_connection, release_connection, release_in,
  initialize_pool,
}
use alarm_sys_linux.Pool.Answers.{is_some-get_connection}
use alarm_sys_linux.Pool.Reach.{Reach, got, released, initialized, start, IsPool, Reach-IsPool}

abbrev usable : ℕ → Bool
usable h = true

-- A pool of one connection is initialized twice, two callers take the two connections, and the first
-- gives its own back.
abbrev used_by_two : Connections
used_by_two = opened 5 true 12 ∷ opened 6 true 13 ∷ []

abbrev one_idle : Connections
one_idle = release_connection 5 14 used_by_two

history : Reach 1 1 30 1 one_idle ((2, 6) ∷ [])
unfolding get_connection take_idle get_new release_connection release_in initialize_pool
history =
    released 14 1 5
      (got usable 13 none 2 6
        (got usable 12 none 1 5
          (initialized 11 (some 6) (initialized 10 (some 5) start (refl, omega arith))
            (refl, omega arith))
          tt refl)
        tt refl)
      (omega arith) refl

Reach-IsPool_example : IsPool 2 one_idle ((2, 6) ∷ [])
Reach-IsPool_example = Reach-IsPool (omega arith) history

is_some-get_connection_example : is_some (get_connection usable 13 1 (some 6) used_by_two) ≡ false
is_some-get_connection_example = is_some-get_connection usable 13 1 (some 6) used_by_two
