-- ===== src/Http/Gather.antt =====
-- A header as a whole, however its name and its value arrive in pieces (http_parser.c).
use lamseryn.Prelude.{◌-◌, if◌then◌else◌, List, Bytes, ltb, length, take}
use lamseryn.Http.Values.{lowered}
use lamseryn.Http.Fields.{
  Fields, Interest, is_in_value, hdr_name_size, ArenaRoom, interest_of, finalize_interested_header,
}
use lamseryn.Http.Pieces.{named, valued, kept_val}

-- The state after a value `t` of a header with this interest.
abbrev held : Fields → Interest → Bytes → Fields
held c i t = valued c i (kept_val i t) (take 127 t) (ltb 127 (length t))

-- What a header leaves behind: its name in lower case up to 31 bytes, what the name stands for, the
-- value in lower case up to 63 bytes if that matters, and the value as it is up to 127 bytes with
-- the flag that it was cut.
abbrev pub gathered : Fields → Bytes → Bytes → Fields
gathered c name val =
    let text = take (hdr_name_size - 1) (lowered name) in held (named c text) (interest_of text) val

-- The state when the name of a header begins: the header before, if there is one, is dealt with.
abbrev pub settled : ArenaRoom → Fields → Fields
settled room c = if is_in_value c.hdr_state then finalize_interested_header room c else c
