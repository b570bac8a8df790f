-- ===== src/Registry.antt =====
-- services/device_registry.py: which device is connected on which socket. Every function runs under
-- the module's lock, so each is one step on the state. A socket stands for `id(conn)`, and a time is
-- an argument in place of `datetime.now`.
use shalotrack_gateway.Shared.{ℕ, ◌≡◌, Bool, true, false, Option, none, some, List, [], ◌∷◌}
use shalotrack_gateway.Shared.Text.{Text}
use shalotrack_gateway.Shared.Dict.{Dict, get, put, pop, nat_key, text_key}
pub mod Consistent

-- protocols/detect.py: GT06, GPS103, TELTONIKA
pub data Family : Type 0 where
  gt06 gps103 teltonika : Family

-- The keys that an entry may lack are options; a speed is in hundredths of a km/h.
pub record Entry : Type 0 where
  pub device_id : Text
  pub ip : Text
  pub protocol : Family
  pub socket : ℕ
  pub connected_at : ℕ
  pub last_seen : ℕ
  pub last_position_at : Option ℕ
  pub last_speed : Option ℕ
  pub last_poll_at : Option ℕ

pub record Registry : Type 0 where
  pub by_imei : Dict Text Entry
  pub by_socket : Dict ℕ Text
  pub last_packet_at : Option ℕ

abbrev pub empty : Registry
empty = record { by_imei = []; by_socket = []; last_packet_at = none }

abbrev pub new_entry : Text → Text → ℕ → Family → ℕ → Entry
new_entry ip device_id conn protocol now = record {
  device_id = device_id;
  ip = ip;
  protocol = protocol;
  socket = conn;
  connected_at = now;
  last_seen = now;
  last_position_at = none;
  last_speed = none;
  last_poll_at = none;
}

-- if existing: _by_socket.pop(id(existing["socket"]), None)
abbrev pub unbind : Option Entry → Dict ℕ Text → Dict ℕ Text
unbind none sockets = sockets
unbind (some existing) sockets = pop existing.socket sockets

unfoldable pub register_device : Text → Text → Text → ℕ → Family → ℕ → Registry → Registry
register_device imei ip device_id conn protocol now r = record r {
  by_imei = put imei (new_entry ip device_id conn protocol now) r.by_imei;
  by_socket = put conn imei (unbind (get imei r.by_imei) r.by_socket);
}

unfoldable pub unregister_device : Text → Registry → Registry
unregister_device imei r = record r {
  by_imei = pop imei r.by_imei;
  by_socket = unbind (get imei r.by_imei) r.by_socket;
}

unfoldable pub get_imei_by_socket : ℕ → Registry → Option Text
get_imei_by_socket conn r = get conn r.by_socket

unfoldable pub get_device : Text → Registry → Option Entry
get_device imei r = get imei r.by_imei

-- if device: device[...] = ... on the entry of an IMEI
abbrev pub change : Text → (Entry → Entry) → Option Entry → Registry → Registry
change imei f none r = r
change imei f (some device) r = record r { by_imei = put imei (f device) r.by_imei }

unfoldable pub note_position : Text → Option ℕ → ℕ → Registry → Registry
note_position imei speed now r =
    change imei (λ d. record d { last_position_at = some now; last_speed = speed })
      (get imei r.by_imei) r

unfoldable pub update_last_seen : Text → ℕ → Registry → Registry
update_last_seen imei now r = change imei (λ d. record d { last_seen = now }) (get imei r.by_imei) r

-- entry["last_poll_at"] = now, in services/gps103_poller.py
unfoldable pub note_poll : Text → ℕ → Registry → Registry
note_poll imei now r =
    change imei (λ d. record d { last_poll_at = some now }) (get imei r.by_imei) r

unfoldable pub mark_packet_received : ℕ → Registry → Registry
mark_packet_received now r = record r { last_packet_at = some now }

unfoldable pub get_socket : Text → Registry → Option ℕ
get_socket imei r = elim (get imei r.by_imei) [ none ↦ none | some device ↦ some device.socket ]

unfoldable pub is_online : Text → Registry → Bool
is_online imei r = elim (get imei r.by_imei) [ none ↦ false | some device ↦ true ]
