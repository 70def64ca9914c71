-- ===== src/Harness/Pebble/Hosts/Laws.antt =====
-- The search of `/etc/hosts` in crates/testing/src/lib.rs, against the table that the file prints.
use mathlib.Core.Option
use acme_wasm.Prelude.{
  ℕ, ◌≡◌, refl, ap, ◌∙◌, Bool, true, false, not, ◌&&◌, Option, some, List, [], ◌∷◌, ◌++◌, map,
  append_assoc, arith, leb, ◌==◌, if◌then◌else◌, is_empty, find_first, any, All, any_cons,
  any-append, any-weaken, Bytes, Text, ◌is◌, join, from_utf8-ascii, from_utf8_lossy-valid,
}
use acme_wasm.Harness.HttpServer.Words.{
  visible, split_whitespace, split_lines, emit, split_whitespace-blank, split_whitespace-visible,
  split_lines-append,
}
use acme_wasm.Harness.Pebble.Hosts.{
  docker_host, trim_line_end, lines, first_word, names_of, host_ip_in, host_ip,
}

-- An address and its names.
pub record HostsEntry : Type 0 where
  pub ip : Text
  pub names : List Text

-- A tab after the address, a blank between names, and a newline.
unfoldable pub hosts_line : HostsEntry → Text
hosts_line entry = entry.ip ++ 9 ∷ join (32 ∷ []) entry.names

unfoldable pub hosts_file : List HostsEntry → Bytes
unfolding hosts_line
hosts_file [] = []
hosts_file (entry ∷ rest) = hosts_line entry ++ 10 ∷ hosts_file rest

-- The address of the first entry that has the name.
abbrev pub has_name : HostsEntry → Bool
has_name entry = any (λ name. name is docker_host) entry.names

abbrev pub ip_of : HostsEntry → Text
ip_of entry = entry.ip

unfoldable pub address_of : List HostsEntry → Option Text
address_of entries = Option.map ip_of (find_first has_name entries)

-- One or more visible ASCII characters.
abbrev pub Word : Text → Type 0
Word w = (is_empty w ≡ false) × (any (λ c. not (visible c)) w ≡ false)

abbrev pub Plain : HostsEntry → Type 0
Plain entry = Word entry.ip × All Word entry.names

emit_word : (w : Text) (ws : List Text) → is_empty w ≡ false → emit w ws ≡ w ∷ ws
emit_word [] ws h = absurd cc
emit_word (c ∷ w) ws h = refl

split_whitespace-join :
    (names : List Text) → All Word names → split_whitespace (join (32 ∷ []) names) ≡ names
unfolding join
split_whitespace-join [] h = split_whitespace-visible [] refl
split_whitespace-join (w ∷ []) h = split_whitespace-visible w h.0.1 ∙ emit_word w [] h.0.0
split_whitespace-join (w ∷ v ∷ names) h =
    ap split_whitespace (append_assoc w (32 ∷ []) (join (32 ∷ []) (v ∷ names)))
    ∙ split_whitespace-blank w (join (32 ∷ []) (v ∷ names)) 32 h.0.1 refl
    ∙ emit_word w (split_whitespace (join (32 ∷ []) (v ∷ names))) h.0.0
    ∙ ap (λ ws. w ∷ ws) (split_whitespace-join (v ∷ names) h.1)

split_whitespace-hosts_line :
    (entry : HostsEntry)
    → Plain entry
    → split_whitespace (hosts_line entry) ≡ entry.ip ∷ entry.names
unfolding hosts_line
split_whitespace-hosts_line entry h =
    split_whitespace-blank entry.ip (join (32 ∷ []) entry.names) 9 h.0.1 refl
    ∙ emit_word entry.ip (split_whitespace (join (32 ∷ []) entry.names)) h.0.0
    ∙ ap (λ ws. entry.ip ∷ ws) (split_whitespace-join entry.names h.1)

-- a character that ends no line, in ASCII
abbrev line_end : ℕ → Bool
line_end c = not (leb c 0x7F && not (c == 10) && not (c == 13))

trim_line_end-append : (s : Text) → any line_end s ≡ false → trim_line_end (s ++ 10 ∷ []) ≡ s
unfolding trim_line_end
trim_line_end-append [] h = refl
trim_line_end-append (c ∷ []) h =
    let (v, vs) = any_cons line_end c [] h in
    let not_cr : (c == 13) ≡ false = ground arith in rw not_cr refl
trim_line_end-append (c ∷ d ∷ []) h =
    let (v, vs) = any_cons line_end c (d ∷ []) h in
    ap (λ s. c ∷ s) (trim_line_end-append (d ∷ []) vs)
trim_line_end-append (c ∷ d ∷ e ∷ s) h =
    let (v, vs) = any_cons line_end c (d ∷ e ∷ s) h in
    ap (λ s. c ∷ s) (trim_line_end-append (d ∷ e ∷ s) vs)

visible_in_line : (c : ℕ) → not (visible c) ≡ false → line_end c ≡ false
visible_in_line c h = ground arith

ascii_in_line : (c : ℕ) → line_end c ≡ false → not (leb c 0x7F) ≡ false
ascii_in_line c h = ground arith

no_newline_in_line : (c : ℕ) → line_end c ≡ false → (c == 10) ≡ false
no_newline_in_line c h = ground arith

Word-in_line : (w : Text) → Word w → any line_end w ≡ false
Word-in_line w h = any-weaken (λ c. not (visible c)) line_end w visible_in_line h.1

join-in_line : (names : List Text) → All Word names → any line_end (join (32 ∷ []) names) ≡ false
unfolding join
join-in_line [] h = refl
join-in_line (w ∷ []) h = Word-in_line w h.0
join-in_line (w ∷ v ∷ names) h =
    any-append line_end (w ++ 32 ∷ []) (join (32 ∷ []) (v ∷ names))
      (any-append line_end w (32 ∷ []) (Word-in_line w h.0) refl) (join-in_line (v ∷ names) h.1)

hosts_line-in_line : (entry : HostsEntry) → Plain entry → any line_end (hosts_line entry) ≡ false
unfolding hosts_line
hosts_line-in_line entry h =
    any-append line_end entry.ip (9 ∷ join (32 ∷ []) entry.names) (Word-in_line entry.ip h.0)
      (join-in_line entry.names h.1)

hosts_file-ascii :
    (entries : List HostsEntry)
    → All Plain entries
    → any (λ c. not (leb c 0x7F)) (hosts_file entries) ≡ false
unfolding hosts_file
hosts_file-ascii [] h = refl
hosts_file-ascii (entry ∷ rest) h =
    any-append (λ c. not (leb c 0x7F)) (hosts_line entry) (10 ∷ hosts_file rest)
      (any-weaken line_end (λ c. not (leb c 0x7F)) (hosts_line entry) ascii_in_line
        (hosts_line-in_line entry h.0))
      (hosts_file-ascii rest h.1)

lines-hosts_file :
    (entry : HostsEntry) (rest : List HostsEntry)
    → Plain entry
    → lines (hosts_file (entry ∷ rest)) ≡ hosts_line entry ∷ lines (hosts_file rest)
unfolding lines hosts_file
lines-hosts_file entry rest h =
    ap (map trim_line_end) (
      split_lines-append (hosts_line entry) (hosts_file rest) (
        any-weaken line_end (λ c. c == 10) (hosts_line entry) no_newline_in_line
          (hosts_line-in_line entry h)))
    ∙ ap (λ line. line ∷ map trim_line_end (split_lines (hosts_file rest)))
        (trim_line_end-append (hosts_line entry) (hosts_line-in_line entry h))

chosen :
    (b : Bool) (entry : HostsEntry) (rest : List HostsEntry)
    → (if b then some entry.ip else address_of rest)
      ≡ Option.map ip_of (if b then some entry else find_first has_name rest)
unfolding address_of
chosen true entry rest = refl
chosen false entry rest = refl

host_ip_in-hosts_file :
    (entries : List HostsEntry)
    → All Plain entries
    → host_ip_in (lines (hosts_file entries)) ≡ address_of entries
unfolding host_ip_in address_of lines split_lines hosts_file
host_ip_in-hosts_file [] h = refl
host_ip_in-hosts_file (entry ∷ rest) h =
    ap host_ip_in (lines-hosts_file entry rest h.0)
    ∙ ap
        (λ words.
          if any (λ name. name is docker_host) (names_of words)
          then some (first_word words)
          else host_ip_in (lines (hosts_file rest)))
        (split_whitespace-hosts_line entry h.0)
    ∙ ap (λ o. if has_name entry then some entry.ip else o) (host_ip_in-hosts_file rest h.1)
    ∙ chosen (has_name entry) entry rest

-- In the text of a table of addresses and names, all of them words of visible ASCII characters, the
-- search finds the address of the first entry that has the name `host.docker.internal`, and none if
-- no entry has it.
pub host_ip-hosts_file :
    (entries : List HostsEntry)
    → All Plain entries
    → host_ip (hosts_file entries) ≡ address_of entries
unfolding host_ip
host_ip-hosts_file entries h =
    ap (λ t. host_ip_in (lines t))
      (from_utf8_lossy-valid (hosts_file entries)
        (from_utf8-ascii (hosts_file entries) (hosts_file-ascii entries h)))
    ∙ host_ip_in-hosts_file entries h
