-- ===== src/Ddns/Examples.antt =====
-- The writer's theorems at an input.
use regied.Prelude.{String, ◌≡◌, refl, true, false, none, some, ok, err}
use regied.Ddns.{Record, Provider, new_writer, holds, write}
use regied.Ddns.Memory.{holds-write, holds-write_error}

-- It knows one zone, where nothing is yet, and takes what it is sent.
abbrev provider : Provider (Unit {0})
provider = record {
  zone_id = λ token zone s. (ok "z1", s);
  record_id = λ token zone name kind s. (ok none, s);
  create = λ token zone r s. (ok "r1", s);
  update = λ token zone id r s. (none, s);
}

abbrev refusing : Provider (Unit {0})
refusing = record {
  zone_id = λ token zone s. (ok "z1", s);
  record_id = λ token zone name kind s. (ok (some "r1"), s);
  create = λ token zone r s. (err "forbidden", s);
  update = λ token zone id r s. (some "forbidden", s);
}

abbrev address : String → String → Record
address name content = record {
  zone = "example.net";
  name = name;
  kind = "AAAA";
  content = content;
  proxied = false;
  ttl = 300;
}

holds-write_example :
    holds
      (write provider "token" (address "home.example.net" "2001:db8::1") new_writer tt).1
      (address "home.example.net" "2001:db8::1")
    ≡ true
unfolding write new_writer
holds-write_example =
    holds-write provider "token" (address "home.example.net" "2001:db8::1") new_writer tt refl

holds-write_error_example :
    holds
      (write refusing "token" (address "home.example.net" "2001:db8::1") new_writer tt).1
      (address "home.example.net" "2001:db8::1")
    ≡ holds new_writer (address "home.example.net" "2001:db8::1")
unfolding write new_writer
holds-write_error_example =
    holds-write_error refusing "token" (address "home.example.net" "2001:db8::1")
      (address "home.example.net" "2001:db8::1") new_writer tt refl
