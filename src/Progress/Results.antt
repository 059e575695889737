-- ===== src/Progress/Results.antt =====
-- module/download_stat.py, `DownloadResultStore`: the transfers that the console shows, with their speeds.
-- Times are milliseconds, and speeds whole bytes per second, rounded down, where the code keeps the
-- first one as a float. A key stands for its three texts, of which the entry keeps copies.
pub mod Clearing
use telegram_media_downloade.Prelude.{
  ℕ, ◌+◌, ◌-◌, ◌*◌, ◌/◌, max, Bool, true, false, ◌&&◌, Option, none, some, String, List, [], ◌∷◌,
  ltb, leb, nat_beq, if◌then◌else◌, string_key, length,
}
use telegram_media_downloade.Dict.{Dict, get, put, pop}

pub record Entry : Type 0 where
  pub down_byte : ℕ
  pub total_size : ℕ
  pub file_name : String
  pub start_time : ℕ
  pub end_time : ℕ
  pub download_speed : ℕ
  pub each_second_total_download : ℕ

pub record DownloadResultStore : Type 0 where
  pub entries : Dict String Entry
  pub total_download_speed : ℕ
  pub total_download_size : ℕ
  pub last_download_time : ℕ

-- The arguments of `observe`, and the clock.
pub record Sample : Type 0 where
  pub downloaded : ℕ
  pub total_size : ℕ
  pub file_name : String
  pub start_time : ℕ
  pub now : ℕ

unfoldable pub first_entry : Sample → Entry
first_entry x = record {
  down_byte = x.downloaded;
  total_size = x.total_size;
  file_name = x.file_name;
  start_time = x.start_time;
  end_time = x.now;
  download_speed = x.downloaded * 1000 / max (x.now - x.start_time) 1;
  each_second_total_download = x.downloaded;
}

unfoldable pub next_entry : Sample → Entry → Entry
next_entry x e =
    let each_second_total = e.each_second_total_download + (x.downloaded - e.down_byte) in
    let due = leb 1000 (x.now - e.end_time) in
    record e {
      down_byte = x.downloaded;
      total_size = x.total_size;
      file_name = x.file_name;
      end_time = if due then x.now else e.end_time;
      download_speed =
          if due then each_second_total * 1000 / (x.now - e.end_time) else e.download_speed;
      each_second_total_download = if due then 0 else each_second_total;
    }

-- The entry after a sample, and the bytes that it adds.
unfoldable pub sampled : Sample → Option Entry → Entry × ℕ
unfolding first_entry next_entry
sampled x none = (first_entry x, x.downloaded)
sampled x (some e) = (next_entry x e, x.downloaded - e.down_byte)

-- The total speed, once a second.
unfoldable pub add_total : ℕ → ℕ → DownloadResultStore → DownloadResultStore
add_total now delta s =
    let size = s.total_download_size + delta in
    if leb 1000 (now - s.last_download_time)
    then record s {
      total_download_speed = size * 1000 / (now - s.last_download_time);
      total_download_size = 0;
      last_download_time = now;
    }
    else record s { total_download_size = size }

unfoldable pub observe_result : String → Sample → DownloadResultStore → ℕ × DownloadResultStore
unfolding sampled add_total
observe_result key x s =
    let (entry, delta) = sampled x (get key s.entries) in
    (entry.download_speed, add_total x.now delta (record s { entries = put key entry s.entries }))

unfoldable pub remove_result : String → DownloadResultStore → DownloadResultStore
remove_result key s = record s { entries = pop key s.entries }

unfoldable pub is_complete : Entry → Bool
is_complete e = ltb 0 e.total_size && nat_beq e.down_byte e.total_size

unfoldable pub completed_keys : Dict String Entry → List String
unfolding is_complete
completed_keys [] = []
completed_keys ((k, e) ∷ d) =
    let rest = completed_keys d in if is_complete e then k ∷ rest else rest

unfoldable pub pop_all : List String → Dict String Entry → Dict String Entry
pop_all [] d = d
pop_all (k ∷ ks) d = pop_all ks (pop k d)

unfoldable pub clear_completed_results : DownloadResultStore → ℕ × DownloadResultStore
unfolding completed_keys pop_all
clear_completed_results s =
    let completed = completed_keys s.entries in
    (length completed, record s { entries = pop_all completed s.entries })
