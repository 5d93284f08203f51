-- ===== src/Xray/Stats/Names.antt =====
-- Counter names: what is parsed from them.
use xray_bridge.Prelude.{◌≡◌, some, List, [], ◌∷◌, All, false, get_elem?}
use xray_bridge.Text.{Str, utf8, contains}
use xray_bridge.Text.Split.Laws.{join, join-split, split-join, split-IsClean, IsPlain}
use xray_bridge.Json.{pos}
use xray_bridge.Xray.Stats.{separator, parse_stat_name}

-- Joined by ">>>", the parts of a record are the name that was parsed, and no part holds ">>>".
pub parse_stat_name-parts :
    (name : Str)
    → (join separator (parse_stat_name name).parts ≡ name)
      × All (λ part. contains separator part ≡ false) (parse_stat_name name).parts
unfolding parse_stat_name utf8
parse_stat_name-parts name =
    (join-split b'>' (b'>' ∷ b'>' ∷ []) name, split-IsClean b'>' (b'>' ∷ b'>' ∷ []) name)

-- A name that is built of parts without the character ">" is parsed into these parts: the scope is
-- the first, and the id, category and metric are the next three, as far as there are so many.
pub parse_stat_name-join :
    (scope : Str) (parts : List Str)
    → IsPlain b'>' scope
    → All (IsPlain b'>') parts
    → parse_stat_name (join separator (scope ∷ parts)) ≡ record {
      name = join separator (scope ∷ parts);
      parts = scope ∷ parts;
      scope = some scope;
      id = get_elem? parts 0;
      category = get_elem? parts 1;
      metric = get_elem? parts 2;
      value = pos 0;
    }
unfolding parse_stat_name utf8
parse_stat_name-join scope parts plain h =
    rw (split-join b'>' (b'>' ∷ b'>' ∷ []) scope parts plain h)
