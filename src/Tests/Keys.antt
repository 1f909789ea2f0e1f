-- ===== src/Tests/Keys.antt =====
-- The key of one snapshot, there and back.
use cnpg_i_chronicle.Common.{◌≡◌, refl, some, codes, cut_at, arith}
use cnpg_i_chronicle.Store.Layout.{TimeFormat, Layout, hash_part, snapshot_key, parse_snapshot_key}
use cnpg_i_chronicle.Store.Layout.Keys.{Stamped, parse_snapshot_key-snapshot_key}

abbrev one_moment : TimeFormat
one_moment = record { format = λ t. codes "20260102T030405Z"; parse = λ t. some 5 }

abbrev stamped : Stamped one_moment 5
stamped = record {
  day = codes "20260102";
  clock = codes "030405";
  formatted = refl;
  day_width = refl;
  day_digits = refl;
  clock_width = refl;
  clock_digits = refl;
  parsed = refl;
}

abbrev own_layout : Layout
own_layout = record {
  base_path = codes "backups/";
  server_name = codes "a";
  prefix = codes "chronicle";
}

parse_snapshot_key-snapshot_key_example :
    parse_snapshot_key one_moment
      (snapshot_key one_moment own_layout 5 42 (codes "sha256:0123456789abcdef"))
    ≡ some (5, 42)
unfolding hash_part cut_at
parse_snapshot_key-snapshot_key_example =
    parse_snapshot_key-snapshot_key one_moment 5 42 (codes "sha256:0123456789abcdef") stamped
      (omega arith) refl own_layout
