-- ===== src/Tests/Discovery.antt =====
-- A phone that is found, by its fingerprint in hexadecimal, and a text that cuts a character.
use just_drop.Base.{ℕ, ◌≡◌, refl, List, [], ◌∷◌, replicate, none, some, ok, err, take}
use just_drop.Discovery.Hex.{
  hex_encode, hex_decode, from_str_radix, to_digit, decode_pairs, is_boundary, not_a_char_boundary,
}
use just_drop.Discovery.Browser.{
  ServiceInfo, ServiceBrowser, service_resolved, service_removed, handle_event, browse, get_peer,
  device_of, text_eq, fingerprint_of, parse_fingerprint, resolved, is_self, insert_peer, has_key,
  trim_end_dots, platform_of, platform_named, find_named, contains_text, starts, new,
  set_self_fingerprint,
}
use just_drop.Discovery.Browser.Registry.{AreKnown, browse-AreKnown}

-- `a`, a character of two bytes, and `b`
hex_decode_panics : hex_decode (97 ∷ 195 ∷ 169 ∷ 98 ∷ []) ≡ err not_a_char_boundary
unfolding hex_decode decode_pairs is_boundary
hex_decode_panics = refl

abbrev phone_key : List ℕ
phone_key = 1 ∷ 2 ∷ 3 ∷ 4 ∷ 5 ∷ 6 ∷ 7 ∷ 8 ∷ replicate 24 9

abbrev own_key : List ℕ
own_key = replicate 32 7

-- The host is `ab.local.`, and the service `ab._justdrop._tcp.local.`
abbrev phone : ServiceInfo
phone = record {
  fullname =
      97 ∷ 98 ∷ 46 ∷ 95 ∷ 106 ∷ 117 ∷ 115 ∷ 116 ∷ 100 ∷ 114 ∷ 111 ∷ 112 ∷ 46 ∷ 95 ∷ 116 ∷ 99 ∷ 112
      ∷ 46 ∷ 108 ∷ 111 ∷ 99 ∷ 97 ∷ 108 ∷ 46 ∷ [];
  hostname = 97 ∷ 98 ∷ 46 ∷ 108 ∷ 111 ∷ 99 ∷ 97 ∷ 108 ∷ 46 ∷ [];
  port = 42420;
  addresses_v4 = 3232235777 ∷ [];
  fingerprint = some (hex_encode phone_key);
  platform = some "Android";
}

abbrev browser : ServiceBrowser
browser = set_self_fingerprint own_key (new "_justdrop._tcp.local.")

abbrev found : ServiceBrowser
found = resolved (device_of phone 3232235777 100 phone_key) browser

phone_found : browse ((service_resolved phone, 100) ∷ []) browser ≡ ok found
unfolding browse handle_event fingerprint_of parse_fingerprint resolved is_self text_eq
    set_self_fingerprint new hex_encode hex_decode decode_pairs is_boundary from_str_radix to_digit
    insert_peer has_key device_of trim_end_dots platform_of platform_named
phone_found = refl

-- The phone says goodbye, and stays listed: its name `ab.local` is not part of the name of its service.
phone_stays :
    handle_event (service_removed "_justdrop._tcp.local." phone.fullname) 101 found ≡ ok found
unfolding handle_event find_named contains_text starts resolved is_self text_eq set_self_fingerprint
    new hex_encode insert_peer has_key device_of trim_end_dots platform_of platform_named
phone_stays = refl

browse-AreKnown_example :
    AreKnown (some (hex_encode (take 8 own_key))) found.peers
    × (get_peer found (hex_encode (take 8 own_key)) ≡ none)
browse-AreKnown_example =
    browse-AreKnown "_justdrop._tcp.local." own_key ((service_resolved phone, 100) ∷ []) found
      phone_found
