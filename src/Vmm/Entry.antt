-- ===== src/Vmm/Entry.antt =====
-- The two views of a page table entry, as fields and as one number.
use fesos.Prelude.{ℕ, ◌/◌, ◌%◌, ◌^◌, ◌<◌, ◌≡◌, arith}
use fesos.Vmm.{PageTableEntry, decode, encode, map_page, link_entry}

-- Each field is within its width.
pub record IsEntry (e : PageTableEntry) : Type 0 where
  pub present_fits : e.present < 2
  pub writeable_fits : e.writeable < 2
  pub user_available_fits : e.user_available < 2
  pub write_through_fits : e.write_through < 2
  pub disable_caching_fits : e.disable_caching < 2
  pub accessed_fits : e.accessed < 2
  pub dirty_fits : e.dirty < 2
  pub huge_page_fits : e.huge_page < 2
  pub global_fits : e.global < 2
  pub available_low_fits : e.available_low < 8
  pub physical_address_fits : e.physical_address < 2 ^ 40
  pub available_high_fits : e.available_high < 2 ^ 11
  pub execute_disable_fits : e.execute_disable < 2

pub encode_lt : (e : PageTableEntry) → IsEntry e → encode e < 2 ^ 64
unfolding encode
encode_lt e h = omega arith

pub encode-decode : (raw : ℕ) → raw < 2 ^ 64 → encode (decode raw) ≡ raw
unfolding encode decode
encode-decode raw small = omega arith

pub decode-encode : (e : PageTableEntry) → IsEntry e → decode (encode e) ≡ e
unfolding decode encode
decode-encode e h =
    let present_same : (decode (encode e)).present ≡ e.present = omega arith in
    let writeable_same : (decode (encode e)).writeable ≡ e.writeable = omega arith in
    let user_available_same : (decode (encode e)).user_available ≡ e.user_available = omega arith in
    let write_through_same : (decode (encode e)).write_through ≡ e.write_through = omega arith in
    let disable_caching_same : (decode (encode e)).disable_caching ≡ e.disable_caching =
      omega arith in
    let accessed_same : (decode (encode e)).accessed ≡ e.accessed = omega arith in
    let dirty_same : (decode (encode e)).dirty ≡ e.dirty = omega arith in
    let huge_page_same : (decode (encode e)).huge_page ≡ e.huge_page = omega arith in
    let global_same : (decode (encode e)).global ≡ e.global = omega arith in
    let available_low_same : (decode (encode e)).available_low ≡ e.available_low = omega arith in
    let physical_address_same : (decode (encode e)).physical_address ≡ e.physical_address =
      omega arith in
    let available_high_same : (decode (encode e)).available_high ≡ e.available_high = omega arith in
    let execute_disable_same : (decode (encode e)).execute_disable ≡ e.execute_disable =
      omega arith in
    λ i. record {
      present = present_same i;
      writeable = writeable_same i;
      user_available = user_available_same i;
      write_through = write_through_same i;
      disable_caching = disable_caching_same i;
      accessed = accessed_same i;
      dirty = dirty_same i;
      huge_page = huge_page_same i;
      global = global_same i;
      available_low = available_low_same i;
      physical_address = physical_address_same i;
      available_high = available_high_same i;
      execute_disable = execute_disable_same i;
    }

pub decode-IsEntry : (raw : ℕ) → IsEntry (decode raw)
unfolding decode
decode-IsEntry raw = record {
  present_fits = omega arith;
  writeable_fits = omega arith;
  user_available_fits = omega arith;
  write_through_fits = omega arith;
  disable_caching_fits = omega arith;
  accessed_fits = omega arith;
  dirty_fits = omega arith;
  huge_page_fits = omega arith;
  global_fits = omega arith;
  available_low_fits = omega arith;
  physical_address_fits = omega arith;
  available_high_fits = omega arith;
  execute_disable_fits = omega arith;
}

pub map_page-IsEntry :
    (e : PageTableEntry) (p_addr flags : ℕ) → IsEntry e → IsEntry (map_page e p_addr flags)
unfolding map_page
map_page-IsEntry e p_addr flags h = record {
  present_fits = omega arith;
  writeable_fits = omega arith;
  user_available_fits = omega arith;
  write_through_fits = omega arith;
  disable_caching_fits = omega arith;
  accessed_fits = omega arith;
  dirty_fits = omega arith;
  huge_page_fits = omega arith;
  global_fits = omega arith;
  available_low_fits = omega arith;
  physical_address_fits = omega arith;
  available_high_fits = omega arith;
  execute_disable_fits = omega arith;
}

pub link_entry-IsEntry :
    (e : PageTableEntry) (next_table_p : ℕ) → IsEntry e → IsEntry (link_entry e next_table_p)
unfolding link_entry
link_entry-IsEntry e next_table_p h = record {
  present_fits = omega arith;
  writeable_fits = omega arith;
  user_available_fits = omega arith;
  write_through_fits = omega arith;
  disable_caching_fits = omega arith;
  accessed_fits = omega arith;
  dirty_fits = omega arith;
  huge_page_fits = omega arith;
  global_fits = omega arith;
  available_low_fits = omega arith;
  physical_address_fits = omega arith;
  available_high_fits = omega arith;
  execute_disable_fits = omega arith;
}

-- The 64 bits of an entry that maps a page of 4096 bytes: what the hardware reads in them, and the
-- bits of the old entry that stay.
pub record Maps (old p_addr flags raw : ℕ) : Type 0 where
  pub present_bit : raw % 2 ≡ 1
  pub writeable_bit : raw / 2 % 2 ≡ flags % 2
  pub user_bit : raw / 4 % 2 ≡ flags / 2 % 2
  pub write_through_bit : raw / 8 % 2 ≡ flags / 4 % 2
  pub no_cache_bit : raw / 16 % 2 ≡ flags / 8 % 2
  pub global_bit : raw / 2 ^ 8 % 2 ≡ flags / 32 % 2
  pub no_execute_bit : raw / 2 ^ 63 ≡ flags / 64 % 2
  pub frame_bits : raw / 2 ^ 12 % 2 ^ 40 ≡ p_addr / 2 ^ 12 % 2 ^ 40
  pub bits_5_to_7 : raw / 2 ^ 5 % 2 ^ 3 ≡ old / 2 ^ 5 % 2 ^ 3
  pub bits_9_to_11 : raw / 2 ^ 9 % 2 ^ 3 ≡ old / 2 ^ 9 % 2 ^ 3
  pub bits_52_to_62 : raw / 2 ^ 52 % 2 ^ 11 ≡ old / 2 ^ 52 % 2 ^ 11

pub map_page-Maps :
    (old p_addr flags : ℕ) → Maps old p_addr flags (encode (map_page (decode old) p_addr flags))
unfolding encode decode map_page
map_page-Maps old p_addr flags = record {
  present_bit = omega arith;
  writeable_bit = omega arith;
  user_bit = omega arith;
  write_through_bit = omega arith;
  no_cache_bit = omega arith;
  global_bit = omega arith;
  no_execute_bit = omega arith;
  frame_bits = omega arith;
  bits_5_to_7 = omega arith;
  bits_9_to_11 = omega arith;
  bits_52_to_62 = omega arith;
}
