-- ===== src/Tests/Devices.antt =====
-- The registry and the allowlist at concrete devices.
use shalotrack_gateway.Shared.{◌≡◌, ◌≢◌, refl, arith, none, some, inl, true, false}
use shalotrack_gateway.Shared.Text.{codes}
use shalotrack_gateway.Shared.Dict.{get, put, bytes_eq_iff}
use shalotrack_gateway.Shared.Attempt.{returns}
use shalotrack_gateway.Registry.{
  Registry, gt06, empty, register_device, unregister_device, get_device, get_socket,
  get_imei_by_socket,
}
use shalotrack_gateway.Registry.Consistent.{
  Consistent, register_device-Consistent, register_device_moves, register_second_leaks,
}
use shalotrack_gateway.Repository.{get_device_by_imei, look_up, Allowed}
use shalotrack_gateway.Repository.Allowlist.{get_device_by_imei-Allowed}
use shalotrack_gateway.Tests.Fixtures.{imei, other_imei, device_id, env, entry, idle}

abbrev one : Registry
one = register_device imei (codes "10.0.0.1") device_id 7 gt06 0 empty

empty-Consistent : Consistent empty
unfolding get
empty-Consistent = record { bound = λ j e h. cc; backed = λ s j h. cc }

one-Consistent : Consistent one
unfolding get_imei_by_socket get
one-Consistent =
    register_device-Consistent imei (codes "10.0.0.1") device_id 7 gt06 0 empty empty-Consistent
      (inl refl)

one_bound : get_imei_by_socket 7 one ≡ some imei
unfolding get_imei_by_socket register_device get put
one_bound = refl

one_found : get_device imei one ≡ some (entry gt06)
unfolding get_device register_device get put
one_found = refl

register_device_moves_example :
    let r' = register_device imei (codes "10.0.0.2") device_id 9 gt06 5 one in
    (get_socket imei r' ≡ some 9)
    × (get_imei_by_socket 9 r' ≡ some imei)
    × (get_imei_by_socket 7 r' ≡ none)
register_device_moves_example =
    register_device_moves imei (codes "10.0.0.2") device_id 9 gt06 5 one (entry gt06) one_found
      (omega arith)

other : other_imei ≢ imei
other h = clash ((bytes_eq_iff other_imei imei).1 h)
  where
    clash : false ≡ true → ⊥
    clash q = cc

register_second_leaks_example :
    let r' =
      unregister_device other_imei
        (register_device other_imei (codes "10.0.0.1") (codes "d2") 7 gt06 5 one) in
    (get_socket imei r' ≡ some 7) × (get_imei_by_socket 7 r' ≡ none)
register_second_leaks_example =
    register_second_leaks imei other_imei (codes "10.0.0.1") (codes "d2") 7 gt06 5 one
      one-Consistent one_bound other

active_login : (get_device_by_imei env imei gt06 idle).0 ≡ returns (some device_id)
unfolding get_device_by_imei look_up
active_login = refl

get_device_by_imei-Allowed_example : Allowed env idle imei
get_device_by_imei-Allowed_example =
    get_device_by_imei-Allowed env idle imei gt06 device_id active_login
