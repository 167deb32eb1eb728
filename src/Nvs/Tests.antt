-- ===== src/Nvs/Tests.antt =====
-- firmware/src/nvs.c on a concrete device.
use riceprobe.Base.{
  ℕ, ◌+◌, ◌-◌, ◌≡◌, refl, ◌≤◌, ◌<◌, arith, some, List, [], ◌∷◌, ◌++◌, length, replicate, take, drop,
  ◌↔◌, true,
}
use riceprobe.Errno.{enobufs, ok, err}
use riceprobe.Nvs.{
  Nvs, strlen, chars, get_serial_number, get_uuid_str, serial_key, uuid_key, uuid_text, txt_record,
  Flash, init,
}
use riceprobe.Nvs.Start.{Accepted, init-accepts}
use riceprobe.Nvs.Uuid.{AreBytes, read_uuid, get_uuid_str-reads}
use riceprobe.Nvs.Text.{get_serial_number_lem, txt_record_complete}

-- "RPB1-01"
abbrev serial : List ℕ
serial = 82 ∷ 80 ∷ 66 ∷ 49 ∷ 45 ∷ 48 ∷ 49 ∷ 0 ∷ []

abbrev uuid : List ℕ
uuid = replicate 16 0xa5

abbrev device : Nvs
device = record { serial_number = serial; uuid = uuid; dns_txt_record = [] }

get_serial_number_lem_example :
    (9 ≤ strlen serial → get_serial_number device 9 ≡ err enobufs)
    × (strlen serial < 9
        → get_serial_number device 9 ≡ ok (chars serial ++ replicate (9 - strlen serial) 0))
get_serial_number_lem_example = get_serial_number_lem device 9

seven : strlen serial ≤ 17
unfolding strlen
seven = omega arith

txt_record_complete_example :
    txt_record serial uuid
    ≡ ((7 + strlen serial) ∷ (serial_key ++ chars serial))
      ++ ((length (uuid_key ++ uuid_text uuid) ∷ (uuid_key ++ uuid_text uuid)) ++ (0 ∷ []))
txt_record_complete_example = txt_record_complete serial uuid seven refl

uuid-AreBytes : AreBytes uuid
uuid-AreBytes = ground arith

get_uuid_str-reads_example :
    (text : List ℕ) × (get_uuid_str device 40 ≡ ok (text ++ (0 ∷ [])))
    × (length text ≡ 36)
    × (read_uuid text ≡ some uuid)
get_uuid_str-reads_example = get_uuid_str-reads device 40 (omega arith) refl uuid-AreBytes

-- A partition with these names.
abbrev named : Nvs
named = record {
  serial_number = take 32 (serial ++ replicate 32 0);
  uuid = uuid;
  dns_txt_record = txt_record (take 32 (serial ++ replicate 32 0)) uuid;
}

abbrev partition : Flash
partition at n =
    some (take n (drop at ((0x5a ∷ 0x7a ∷ 1 ∷ 1 ∷ []) ++ (named.serial_number ++ named.uuid))))

init-accepts_example : (init true partition ≡ ok named) ↔ Accepted true partition named
init-accepts_example = init-accepts true partition named
