-- ===== src/Http/Push.antt =====
-- The mode of the pushes, as it is set and read over HTTP (src/AlarmHttpServer.cpp).
use alarm_sys_linux.Common.{◌≡◌, refl, String, Bool, true, false, [], ◌∷◌, if◌then◌else◌}
use alarm_sys_linux.Common.Int.{pos}
use alarm_sys_linux.Common.Double.{Double}
use alarm_sys_linux.Common.Text.{Text}
use alarm_sys_linux.Http.{Server, Env, push_mode, number, text}
use alarm_sys_linux.Http.Request.{Bytes, Json}

module _ {W B J : Type 0} ⦃d : Double W⦄ (bytes : Bytes B) (json : Json B J W) (qt : Text)
    (env : Env W) where
  -- What is put is what is read: after a PUT with full=1 or full=0 the mode is the one put, and a GET
  -- answers 200 with the number that was put; the tables of alarms are as before.
  pub push_mode-get_put :
      (s : Server W) (path asked : String) (full : Bool)
      → bytes.query_full path ≡ (if full then "1" else "0")
      → let after = (push_mode bytes json qt env s "PUT" path).0 in
        let answer = (push_mode bytes json qt env after "GET" asked).1 in
        (after ≡ record s { push_full = full })
        × (answer.status ≡ 200)
        × (answer.body
            ≡ ("code", number (pos 0))
              ∷ ("full", number (if full then pos 1 else pos 0))
              ∷ ("message", text (if full then "full SendAllAlarmEventMsg" else "dds_light_only"))
              ∷ [])
  unfolding push_mode
  push_mode-get_put s path asked true e = rw e (refl, refl, refl)
  push_mode-get_put s path asked false e = rw e (refl, refl, refl)
