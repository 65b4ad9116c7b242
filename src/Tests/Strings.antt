-- ===== src/Tests/Strings.antt =====
-- The readers' and writers' theorems at concrete inputs, and runs.
use libopenssh.Base.{◌≡◌, refl, true, arith, [], ◌∷◌}
use libopenssh.Err.{ok, err, invalid_format}
use libopenssh.Sshbuf.{
  Sshbuf, insane, reserve, check_reserve, grow, regrow, claim, maybe_pack, len, ptr,
}
use libopenssh.Sshbuf.Content.{content}
use libopenssh.Getput.{
  store, put, put_string, get, get_string, get_cstring, u32_bytes, u32_of, check_cstring, inner_nul,
  memchr_nul,
}
use libopenssh.Getput.Put.{Written, put-Written, put_granted, Appends}
use libopenssh.Getput.Get.{Got, get-Got}
use libopenssh.Getput.PutString.{StringWritten, put_string-StringWritten}
use libopenssh.Getput.GetString.{StringGot, get_string-StringGot}
use libopenssh.Getput.RoundTrip.{Returns, get_string-put_string}
use libopenssh.Tests.{libc, half_full, half_full-WellFormed, empty_buffer, empty_buffer-WellFormed}

put-Written_example : Written libc half_full (1 ∷ 2 ∷ []) (put libc (1 ∷ 2 ∷ []) half_full)
put-Written_example = put-Written libc half_full (1 ∷ 2 ∷ []) half_full-WellFormed

put_granted_example :
    (c : Sshbuf) × (put libc (1 ∷ 2 ∷ []) half_full ≡ (c, ok tt)) × Appends half_full (1 ∷ 2 ∷ []) c
unfolding content
put_granted_example =
    put_granted libc half_full (1 ∷ 2 ∷ []) half_full-WellFormed (refl, omega arith)
      (λ p mem k e. cc e)

get-Got_example : Got (λ v. v) 3 half_full (get 3 half_full)
get-Got_example = get-Got 3 half_full half_full-WellFormed

put_string-StringWritten_example :
    StringWritten libc empty_buffer (7 ∷ 8 ∷ []) (put_string libc (7 ∷ 8 ∷ []) empty_buffer)
put_string-StringWritten_example =
    put_string-StringWritten libc empty_buffer (7 ∷ 8 ∷ []) empty_buffer-WellFormed

-- The four bytes announce 261 bytes that are not there.
get_string-StringGot_example : StringGot true half_full (get_string true half_full)
get_string-StringGot_example = get_string-StringGot true half_full half_full-WellFormed

-- A buffer that holds the string "hi" and one more byte.
abbrev greeting : Sshbuf
greeting = record half_full { mem = 0 ∷ 0 ∷ 0 ∷ 2 ∷ 104 ∷ 105 ∷ 6 ∷ 0 ∷ []; off = 0; size = 7 }

abbrev after_put : Sshbuf
after_put = record empty_buffer { mem = 0 ∷ 0 ∷ 0 ∷ 2 ∷ 104 ∷ 105 ∷ 0 ∷ 0 ∷ []; size = 6 }

put_string_runs : put_string libc (104 ∷ 105 ∷ []) empty_buffer ≡ (after_put, ok tt)
unfolding put_string reserve check_reserve insane grow regrow claim maybe_pack store u32_bytes
put_string_runs = refl

get_string-put_string_example : Returns (get_string true after_put) (104 ∷ 105 ∷ 0 ∷ [], 2) []
unfolding content
get_string-put_string_example =
    get_string-put_string libc empty_buffer after_put (104 ∷ 105 ∷ []) empty_buffer-WellFormed refl
      put_string_runs

-- A NUL in the middle of a C string is refused.
cstring_refused :
    (get_cstring true (record greeting { mem = 0 ∷ 0 ∷ 0 ∷ 2 ∷ 0 ∷ 105 ∷ 6 ∷ 0 ∷ [] })).1
    ≡ err invalid_format
unfolding get_cstring check_cstring inner_nul memchr_nul ptr len insane u32_of
cstring_refused = refl
