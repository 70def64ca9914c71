-- ===== src/Harness/Pebble/Hosts.antt =====
-- `read_host_docker_internal_ip` of crates/testing/src/lib.rs: the search of the container's
-- `/etc/hosts`.
pub mod Laws
use acme_wasm.Prelude.{
  ◌&&◌, Option, none, some, List, [], ◌∷◌, map, ◌==◌, if◌then◌else◌, any, Bytes, Text, text, ◌is◌,
  from_utf8_lossy,
}
use acme_wasm.Harness.HttpServer.Words.{
  visible, visible-space_width, split_whitespace, split_lines, emit, split_whitespace-blank,
  split_whitespace-visible, split_lines-append,
}

abbrev pub docker_host : Text
docker_host = text "host.docker.internal"

-- A line without its end, `\n` or `\r\n`.
unfoldable pub trim_line_end : Bytes → Text
trim_line_end [] = []
trim_line_end (c ∷ []) = if c == 10 then [] else c ∷ []
trim_line_end (c ∷ d ∷ []) = if c == 13 && d == 10 then [] else c ∷ (if d == 10 then [] else d ∷ [])
trim_line_end (c ∷ d ∷ e ∷ s) = c ∷ trim_line_end (d ∷ e ∷ s)

-- `lines()`
unfoldable pub lines : Text → List Text
unfolding trim_line_end split_lines
lines s = map trim_line_end (split_lines s)

-- `next().unwrap_or("")`
abbrev pub first_word : List Text → Text
first_word [] = []
first_word (w ∷ ws) = w

abbrev pub names_of : List Text → List Text
names_of [] = []
names_of (w ∷ ws) = ws

-- The first word of the first line that has the name after it.
unfoldable pub host_ip_in : List Text → Option Text
unfolding ◌is◌ split_whitespace
host_ip_in [] = none
host_ip_in (line ∷ rest) =
    let words = split_whitespace line in
    let later = host_ip_in rest in
    if any (λ name. name is docker_host) (names_of words) then some (first_word words) else later

unfoldable pub host_ip : Bytes → Option Text
unfolding host_ip_in lines
host_ip hosts = host_ip_in (lines (from_utf8_lossy hosts))
