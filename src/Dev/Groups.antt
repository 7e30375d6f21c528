-- ===== src/Dev/Groups.antt =====
-- dev/dev-groups.ts: groups without a store. Only the own keys of the object count.
use comdove_fake_backend.Base.{
  or_else, find, any, Text, lit, text_eq, Bool, true, Option, none, some, List, [], ◌∷◌, map,
}
use comdove_fake_backend.Contract.Types.{manual}
use comdove_fake_backend.Contract.Events.{Tile, Snapshot}

pub record MemoryGroup : Type 0 where
  pub name : Text
  pub tiles : Option (List Text)

abbrev pub dev_groups : List (Text × MemoryGroup)
dev_groups =
    (
      lit "alpha",
      record { name = lit "Alpha"; tiles = some (lit "919876543210" ∷ lit "919876543211" ∷ []) },
    )
    ∷ (lit "beta", record { name = lit "Beta"; tiles = some (lit "919876543220" ∷ []) })
    ∷ []

unfoldable pub exists : Text → List (Text × MemoryGroup) → Bool
exists group groups = any (λ g. text_eq g.0 group) groups

abbrev pub fresh_tile : Text → Tile
fresh_tile number = record {
  number = number;
  label = none;
  online = true;
  auto_reply = record { mode = manual; delay_ms = 0; rules = [] };
  history = [];
  queued = [];
  unread = [];
}

-- `none` where it throws.
unfoldable pub snapshot : Text → List (Text × MemoryGroup) → Option Snapshot
snapshot group groups = elim (find (λ g. text_eq g.0 group) groups) [
  | none ↦ none
  | some g ↦ some (record {
    id = group;
    name = g.1.name;
    business_numbers = [];
    tiles = map fresh_tile (or_else g.1.tiles []);
  })
]
