-- ===== src/Mutate/Tables/Guarded.antt =====
-- MUTANTS of tools/mutate_guards.py.
use Prim.Native.String.{String}
use gopher_metal.Prelude.{List, [], ◌∷◌}
use gopher_metal.Prelude.Text.{codes}
use gopher_metal.Mutate.Runs.Guards.{Guard}

abbrev guard : String → String → String → String → Guard
guard file name old new = record {
  file = codes file;
  name = codes name;
  old = codes old;
  new = codes new;
}

-- io.zig
abbrev pub io_rows : List Guard
io_rows =
    guard "io" "data dirs matched by case" "if (std.ascii.eqlIgnoreCase(dir, first)) return .data;"
      "if (std.mem.eql(u8, dir, first)) return .data;"
    ∷ guard "io" "a write outside the data dirs" "if (place == .site and data_dirs.len != 0) {"
        "if (false) {"
    ∷ guard "io" "cached before keepData" "return data_dirs.len != 0 and placeOf(path) == .site;"
        "return placeOf(path) == .site;"
    ∷ guard "io" "cache found by case"
        "if (std.ascii.eqlIgnoreCase(self.names[i][0..self.name_lens[i]], path))"
        "if (std.mem.eql(u8, self.names[i][0..self.name_lens[i]], path))"
    ∷ guard "io" "cache keeps a file past largest"
        "if (self.count >= slots or path.len > max_path or bytes.len > largest) return;"
        "if (self.count >= slots or path.len > max_path) return;"
    ∷ guard "io" ". and .. routed"
        "if (std.mem.eql(u8, part, \".\") or std.mem.eql(u8, part, \"..\")) return null;"
        "_ = part;"
    ∷ guard "io" "data files cached" "return data_dirs.len != 0 and placeOf(path) == .site;"
        "_ = path;\n    return data_dirs.len != 0;"
    ∷ guard "io" "cache past capacity" "if (self.used + bytes.len > capacity) return;"
        "if (false) return;"
    ∷ []

-- disk_fat_fat.zig and disk_fat.zig
abbrev pub disk_fat_rows : List Guard
disk_fat_rows =
    guard "disk_fat_fat" "TooBig: buf.len < self.fatBytes()" "if (buf.len < self.fatBytes()) {"
      "if (false and (buf.len < self.fatBytes())) {"
    ∷ guard "disk_fat" "BadBootSector: b[510] != 0x55 or b[511] != 0xAA"
        "if (b[510] != 0x55 or b[511] != 0xAA) {"
        "if (false and (b[510] != 0x55 or b[511] != 0xAA)) {"
    ∷ guard "disk_fat" "NotFat16: bytes_per_sector != sector_size"
        "if (bytes_per_sector != sector_size) {"
        "if (false and (bytes_per_sector != sector_size)) {"
    ∷ guard "disk_fat" "BadBootSector: sectors_per_cluster == 0 or sectors_per_cluster > 128"
        "if (sectors_per_cluster == 0 or sectors_per_cluster > 128) {"
        "if (false and (sectors_per_cluster == 0 or sectors_per_cluster > 128)) {"
    ∷ guard "disk_fat" "BadBootSector: reserved == 0 or num_fats == 0 or num_fats > 2"
        "if (reserved == 0 or num_fats == 0 or num_fats > 2) {"
        "if (false and (reserved == 0 or num_fats == 0 or num_fats > 2)) {"
    ∷ guard "disk_fat" "VolumeTooLarge: @as(u64, start_lba) + total > 0xFFFF_FFFF"
        "if (@as(u64, start_lba) + total > 0xFFFF_FFFF) {"
        "if (false and (@as(u64, start_lba) + total > 0xFFFF_FFFF)) {"
    ∷ guard "disk_fat" "BadBootSector: total == 0 or data_start >= total"
        "if (total == 0 or data_start >= total) {"
        "if (false and (total == 0 or data_start >= total)) {"
    ∷ guard "disk_fat" "NotFat16: clusters < 4085" "if (clusters < 4085) {"
        "if (false and (clusters < 4085)) {"
    ∷ guard "disk_fat" "TooManyClusters: kind == .fat32 and clusters > 0x0FFF_FFF5"
        "if (kind == .fat32 and clusters > 0x0FFF_FFF5) {"
        "if (false and (kind == .fat32 and clusters > 0x0FFF_FFF5)) {"
    ∷ guard "disk_fat" "BadBootSector: root_entries == 0" ".fat16 => if (root_entries == 0) {"
        ".fat16 => if (false and (root_entries == 0)) {"
    ∷ guard "disk_fat" "BadBootSector: root_entries != 0 or fat16_sectors != 0"
        "if (root_entries != 0 or fat16_sectors != 0) {"
        "if (false and (root_entries != 0 or fat16_sectors != 0)) {"
    ∷ guard "disk_fat" "NotMirrored: le16(b[40..42]) & 0x80 != 0"
        "if (le16(b[40..42]) & 0x80 != 0) {" "if (false and (le16(b[40..42]) & 0x80 != 0)) {"
    ∷ guard "disk_fat" "FatVersion: le16(b[42..44]) != 0" "if (le16(b[42..44]) != 0) {"
        "if (false and (le16(b[42..44]) != 0)) {"
    ∷ guard "disk_fat" "BadRoot: root_cluster < 2 or root_cluster > clusters + 1"
        "if (root_cluster < 2 or root_cluster > clusters + 1) {"
        "if (false and (root_cluster < 2 or root_cluster > clusters + 1)) {"
    ∷ guard "disk_fat" "BadBootSector: @as(u64, sectors_per_fat) * (sector_size / entry_bytes) < @a"
        "if (@as(u64, sectors_per_fat) * (sector_size / entry_bytes) < @as(u64, clusters) + 2) {"
        "if (false and (@as(u64, sectors_per_fat) * (sector_size / entry_bytes) < @as(u64, clusters) + 2)) {"
    ∷ guard "disk_fat" "BadChain: !self.inData(v)" "if (!self.inData(v)) {"
        "if (false and (!self.inData(v))) {"
    ∷ []

-- disk_fat_dir.zig, disk_fat_file.zig and disk_fat_remove.zig
abbrev pub folder_rows : List Guard
folder_rows =
    guard "disk_fat_dir" "BadChain: cluster == self.seen" "if (cluster == self.seen) {"
      "if (false and (cluster == self.seen)) {"
    ∷ guard "disk_fat_dir" "BadChain: a directory's first cluster outside the data"
        "        if (!vol.inData(first)) {\n            props.reachable(@src(), \"fat: a directory's first cluster is outside the data\", null);"
        "        if (false and !vol.inData(first)) {\n            props.reachable(@src(), \"fat: a directory's first cluster is outside the data\", null);"
    ∷ guard "disk_fat_dir" "DirectoryFull: (end.clusters + 1) * per_cluster > max_dir_entries"
        "if ((end.clusters + 1) * per_cluster > max_dir_entries) {"
        "if (false and ((end.clusters + 1) * per_cluster > max_dir_entries)) {"
    ∷ guard "disk_fat_file" "BadName: given.len == 0 or given.len > max_name"
        "if (given.len == 0 or given.len > max_name) {"
        "if (false and (given.len == 0 or given.len > max_name)) {"
    ∷ guard "disk_fat_file" "TooBig: bytes.len > 0xFFFF_FFFF" "if (bytes.len > 0xFFFF_FFFF) {"
        "if (false and (bytes.len > 0xFFFF_FFFF)) {"
    ∷ guard "disk_fat_remove" "removeTree swallows a failed open"
        "    const entry = self.open(path) catch |e| switch (e) {\n        Error.NotFound => return,\n        else => return e,\n    };"
        "    const entry = self.open(path) catch return;"
    ∷ guard "disk_fat_remove" "removeTree swallows its last remove"
        "    const p = try self.parentOf(path);\n    try self.removeEntry(p.cluster, p.name);\n}"
        "    const p = try self.parentOf(path);\n    self.removeEntry(p.cluster, p.name) catch {};\n}"
    ∷ guard "disk_fat_file" "append links what the size lacks, not the chain"
        "            const more = need - end.clusters;" "            const more = need - have;"
    ∷ guard "disk_fat_file" "append counts clusters from the size"
        "        if (need > end.clusters) {\n            props.reachable(@src(), \"fat: an append links clusters onto a file\", .{ .need = need, .have = end.clusters });\n            const more = need - end.clusters;\n"
        "        if (need > have) {\n            props.reachable(@src(), \"fat: an append links clusters onto a file\", .{ .need = need, .have = end.clusters });\n            const more = need - have;\n"
    ∷ []

-- kept_log.zig and restart.zig
abbrev pub restart_rows : List Guard
restart_rows =
    guard "kept_log" "magic not checked"
      "return h.magic == magic and h.check == h.sum() and h.head < slot_bytes and"
      "return h.check == h.sum() and h.head < slot_bytes and"
    ∷ guard "kept_log" "checksum not checked"
        "return h.magic == magic and h.check == h.sum() and h.head < slot_bytes and"
        "return h.magic == magic and h.head < slot_bytes and"
    ∷ guard "kept_log" "head past the slot"
        "return h.magic == magic and h.check == h.sum() and h.head < slot_bytes and"
        "return h.magic == magic and h.check == h.sum() and"
    ∷ guard "kept_log" "head and total disagree" "            h.head == h.total % slot_bytes;"
        "            true;"
    ∷ guard "kept_log" "the older slot chosen" "if (h.boot > headerAt(region, b).boot) best = s;"
        "if (h.boot < headerAt(region, b).boot) best = s;"
    ∷ guard "kept_log" "this boot writes over the last" "const slot: u1 = if (best) |b| ~b else 0;"
        "const slot: u1 = if (best) |b| b else 0;"
    ∷ guard "restart" "magic not checked" "        if (b[0] != magic) {" "        if (false) {"
    ∷ guard "restart" "checksum not checked" "        if (b[7] != checksum(b[0..7])) {"
        "        if (false) {"
    ∷ guard "restart" "a count of 0 taken" "        if (b[1] == 0) {" "        if (false) {"
    ∷ guard "restart" "count never resets after an hour"
        "if (n < then or n - then > count_resets_after_minutes) break :blk 1;"
        "if (n < then) break :blk 1;"
    ∷ guard "restart" "a clock gone back counted in a row"
        "if (n < then or n - then > count_resets_after_minutes) break :blk 1;"
        "if (n - then > count_resets_after_minutes) break :blk 1;"
    ∷ guard "restart" "count wraps to 0" "break :blk p.count +| 1;" "break :blk p.count +% 1;"
    ∷ guard "restart" "no wait at the 4th" "        4 => 60," "        4 => 0,"
    ∷ guard "restart" "a sum that equal bytes pass" "var s: u8 = 0x5A;" "var s: u8 = 0;"
    ∷ []
