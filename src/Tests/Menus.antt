-- ===== src/Tests/Menus.antt =====
-- A menu with one entry and an entry behind it, built, walked and written to a file.
use kdevops.Prelude.{
  zero, suc, ℕ, ◌+◌, ◌≡◌, refl, true, false, Option, none, some, List, [], ◌∷◌, ◌++◌, ◌==◌,
  if◌then◌else◌, Bytes, codes, arith,
}
use kdevops.Symbol.{Store, p_prompt, p_menu}
use kdevops.Menu.{
  Menu, World, menu_init, blank, menu_add_entry, menu_add_menu, menu_end_menu, menu_add_prompt,
}
use kdevops.Menu.Tree.{Forest, nil, config, block, first, size, Linked}
use kdevops.Menu.Build.{parse}
use kdevops.Menu.Build.Links.{parse-Linked}
use kdevops.Menu.Walk.{◌>>=◌, walk, visit, after_inner}
use kdevops.Menu.Walk.Order.{walk-visit}
use kdevops.Menu.Walk.Built.{from, note, pass, walk-parse}
use kdevops.Config.Write.{Output, write_config, FileSystem, Files, Exit, conf_write}
use kdevops.Config.Write.Laws.{Outcome, conf_write-Outcome}
use kdevops.Tests.{sample_symbol, driver, net, sample}

abbrev entries : Forest
entries = block none (config (some driver) nil) (config (some net) nil)

parse-Linked_example :
    (w : World) × (parse entries (record { store = sample; menus = menu_init }) ≡ some w)
    × Linked w.menus.node 0 entries 1
    × (w.menus.node 0 ≡ record blank { list = first entries 1 })
    × (w.menus.current_menu ≡ some 0)
parse-Linked_example = parse-Linked entries sample

walk-parse_example :
    (w : World) × (parse entries (record { store = sample; menus = menu_init }) ≡ some w)
    × (walk w.menus.node note pass (suc (size entries)) (size entries) (w.menus.node 0).list []
        ≡ some (from 1 (size entries)))
walk-parse_example = walk-parse entries sample

-- The nodes of the entries.
abbrev nodes : ℕ → Menu
nodes zero = record blank { list = some 1 }
nodes (suc zero) = record blank { parent = some 0; list = some 2; next = some 3 }
nodes (suc (suc zero)) = record blank { parent = some 1; sym = some driver }
nodes (suc (suc (suc zero))) = record blank { parent = some 0; sym = some net }
nodes _ = blank

nodes-Linked : Linked nodes 0 entries 1
nodes-Linked = (
  record { parent_lem = refl; sym_lem = refl; list_lem = refl; next_lem = refl },
  (record { parent_lem = refl; sym_lem = refl; list_lem = refl; next_lem = refl }, tt),
  (record { parent_lem = refl; sym_lem = refl; list_lem = refl; next_lem = refl }, tt),
)

-- Each node that is left is noted as well.
abbrev note_left : ℕ → List ℕ → Option (List ℕ)
note_left m seen = some (seen ++ (100 + m) ∷ [])

walk-visit_example :
    walk nodes note note_left 4 3 (nodes 0).list []
    ≡ (visit nodes note note_left entries 1 [] >>= after_inner nodes note note_left entries 0)
walk-visit_example =
    walk-visit nodes note note_left 4 3 entries [] nodes-Linked refl refl refl (omega arith)
      (omega arith)

walk_run : walk nodes note note_left 4 3 (nodes 0).list [] ≡ some (1 ∷ 2 ∷ 101 ∷ 3 ∷ 100 ∷ [])
unfolding walk
walk_run = refl

-- A configuration to write: the driver is `m`, and the last entry is not to be written.
abbrev to_write : Store
to_write = record sample {
  conf_changed = true;
  sym = λ s.
      if s == driver
      then record (sample_symbol driver) {
        flags = record (sample_symbol driver).flags { write = true };
      }
      else sample_symbol s;
}

-- The calls of the parser for `mainmenu "Main"` and `menu "Drivers"` with an entry in it.
abbrev built : World
built =
    let w0 : World = record { store = to_write; menus = menu_init } in
    let w1 : World = menu_add_prompt p_menu (codes "Main") none w0 in
    let w2 : World = menu_add_prompt p_menu (codes " Drivers") none (menu_add_entry none w1) in
    let w3 : World = menu_add_entry (some driver) (menu_add_menu w2) in
    let w4 : World = menu_add_prompt p_prompt (codes "A driver") none w3 in
    elim (menu_end_menu w4) [ none ↦ w4 | some w ↦ menu_add_entry (some net) w ]

abbrev file_system : FileSystem
file_system = record {
  is_dir = false;
  no_parent_dir = false;
  overwrite = false;
  opens = true;
  reads = true;
  stat_fails = false;
  maps = true;
  moves_old = true;
  renames = true;
}

abbrev old_files : Files
old_files = record { config = some (codes "CONFIG_NET=y\n"); old = none }

abbrev file_text : Option (Exit × Files × Store) → Option Bytes
file_text (some (x, files, st)) = files.config
file_text none = none

write_run :
    file_text (conf_write file_system old_files 4 built.menus.node 5 (codes ".config") built.store)
    ≡ some (
        codes
          "#\n# Automatically generated file; DO NOT EDIT.\n# Main\n#\n\n#\n# Drivers\n#\nCONFIG_DRIVER=m\n# end of Drivers\n")
unfolding conf_write menu_add_prompt menu_add_entry menu_add_menu menu_end_menu menu_init
write_run = refl

abbrev output : Output
output = elim (write_config 4 built.menus.node 5 built.store) [
  | none ↦ record { store = to_write; text = []; need_newline = false }
  | some o ↦ o
]

output_run : write_config 4 built.menus.node 5 built.store ≡ some output
unfolding write_config menu_add_prompt menu_add_entry menu_add_menu menu_end_menu menu_init
output_run = refl

conf_write-Outcome_example :
    (r : Exit × Files × Store) × (conf_write file_system old_files 4 built.menus.node 5
        (codes ".config")
        built.store
      ≡ some r)
    × Outcome file_system old_files (codes ".config") output.text built.store r
conf_write-Outcome_example =
    conf_write-Outcome file_system old_files 4 built.menus.node 5 (codes ".config") built.store
      output output_run
