-- ===== src/Commands/Service.antt =====
-- The send_ functions of services/command_service.py. Their state is the world and the serial number
-- that the builders keep.
use shalotrack_gateway.Shared.{ℕ, Bool}
use shalotrack_gateway.Shared.Bytes.{Bytes}
use shalotrack_gateway.Shared.Text.{Text}
use shalotrack_gateway.Shared.Int.{ℤ}
use shalotrack_gateway.Shared.Attempt.{Attempt, returns, raises}
use shalotrack_gateway.World.{World, Environment}
use shalotrack_gateway.Commands.{Outcome, fault, send_command}
use shalotrack_gateway.Commands.Builder.{
  build_where, build_status, build_version, build_imei, build_params, build_gprsset, build_url,
  build_position, build_fence_query, build_moving_query, build_speed_query, build_sos_query,
  build_timer_query, build_apn_query, build_server_query, build_reset, build_relay_on,
  build_relay_off, build_sos_delete,
}
use shalotrack_gateway.Commands.Settings.{
  build_timer, build_distance, build_speed_alarm, build_moving_alarm, build_fence_circle,
  build_sos_add, build_apn, build_server, build_batalm, build_poweralm,
}

-- A coroutine of the service.
abbrev pub Sender : Type 0
Sender = World × ℕ → Outcome × (World × ℕ)

module _ (env : Environment) where
  abbrev pub send_built : Text → Attempt Bytes → World → Outcome × World
  send_built imei raises w = (fault, w)
  send_built imei (returns command) w = send_command env imei command w

  -- await send_command(imei, build_...(...)): the command is built first, also for a device that is
  -- not there
  abbrev pub deliver : (ℕ → Attempt Bytes × ℕ) → Text → Sender
  deliver build imei (w, serial) =
      let (built, serial') = build serial in
      let (outcome, w') = send_built imei built w in (outcome, (w', serial'))

  abbrev pub send_where : Text → Sender
  send_where = deliver build_where

  abbrev pub send_status : Text → Sender
  send_status = deliver build_status

  abbrev pub send_version : Text → Sender
  send_version = deliver build_version

  abbrev pub send_imei : Text → Sender
  send_imei = deliver build_imei

  abbrev pub send_params : Text → Sender
  send_params = deliver build_params

  abbrev pub send_gprsset : Text → Sender
  send_gprsset = deliver build_gprsset

  abbrev pub send_url : Text → Sender
  send_url = deliver build_url

  abbrev pub send_position : Text → Sender
  send_position = deliver build_position

  abbrev pub send_fence_query : Text → Sender
  send_fence_query = deliver build_fence_query

  abbrev pub send_moving_query : Text → Sender
  send_moving_query = deliver build_moving_query

  abbrev pub send_speed_query : Text → Sender
  send_speed_query = deliver build_speed_query

  abbrev pub send_sos_query : Text → Sender
  send_sos_query = deliver build_sos_query

  abbrev pub send_timer_query : Text → Sender
  send_timer_query = deliver build_timer_query

  abbrev pub send_apn_query : Text → Sender
  send_apn_query = deliver build_apn_query

  abbrev pub send_server_query : Text → Sender
  send_server_query = deliver build_server_query

  abbrev pub send_reset : Text → Sender
  send_reset = deliver build_reset

  abbrev pub send_relay_on : Text → Sender
  send_relay_on = deliver build_relay_on

  abbrev pub send_relay_off : Text → Sender
  send_relay_off = deliver build_relay_off

  abbrev pub send_sos_delete : Text → Sender
  send_sos_delete = deliver build_sos_delete

  abbrev pub send_timer : Text → ℤ → ℤ → Sender
  send_timer imei t1 t2 = deliver (build_timer t1 t2) imei

  abbrev pub send_distance : Text → ℤ → Sender
  send_distance imei meters = deliver (build_distance meters) imei

  abbrev pub send_speed_alarm : Text → Bool → ℤ → ℤ → Bool → Sender
  send_speed_alarm imei enabled interval limit_kmh sms =
      deliver (build_speed_alarm enabled interval limit_kmh sms) imei

  abbrev pub send_moving_alarm : Text → Bool → ℤ → Bool → Sender
  send_moving_alarm imei enabled radius_m sms =
      deliver (build_moving_alarm enabled radius_m sms) imei

  abbrev pub send_fence_circle : Text → Bool → Text → Text → ℤ → Text → Bool → Sender
  send_fence_circle imei enabled lat lon radius_100m trigger sms =
      deliver (build_fence_circle enabled lat lon radius_100m trigger sms) imei

  abbrev pub send_sos_add : Text → Text → Text → Text → Sender
  send_sos_add imei phone1 phone2 phone3 = deliver (build_sos_add phone1 phone2 phone3) imei

  abbrev pub send_apn : Text → Text → Text → Text → Sender
  send_apn imei apn_name user pwd = deliver (build_apn apn_name user pwd) imei

  abbrev pub send_server : Text → Text → ℤ → Bool → Bool → Sender
  send_server imei domain_or_ip port use_domain udp =
      deliver (build_server domain_or_ip port use_domain udp) imei

  abbrev pub send_batalm : Text → Bool → Bool → Sender
  send_batalm imei enabled sms = deliver (build_batalm enabled sms) imei

  abbrev pub send_poweralm : Text → Bool → Bool → Sender
  send_poweralm imei enabled sms = deliver (build_poweralm enabled sms) imei
