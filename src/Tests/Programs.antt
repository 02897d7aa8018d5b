-- ===== src/Tests/Programs.antt =====
-- A run of idlc on one file (nodebus/idlc/idlc.cpp).
use jsonbus.Dict.{lookup, insert, contains}
use jsonbus.Idlc.{link, link_elements, process_all}
use jsonbus.Proxy.{value_of}
use jsonbus.Prelude.{◌≡◌, refl, List, [], ◌∷◌, ok}
use jsonbus.Variant.{Variant, map, nil, end}
use jsonbus.CliArguments.{to_enabled, is_enabled, get_value, CliArguments, define}
use jsonbus.Idlc.Exec.{
  intfs_of, result, linked, link_result, format_from_name, choose_output, read_files, write_result,
  build_result, Tools, Files, on_init, on_exec,
}
use jsonbus.Idlc.Exec.Compiled.{Compiled, on_exec-Compiled}

abbrev tools : Tools
tools = record {
  suffix = λ _. b'J' ∷ b'S' ∷ b'O' ∷ b'N' ∷ [];
  upper = λ t. t;
  lower = λ t. t;
  to_string = λ _. b'A' ∷ b'U' ∷ b'T' ∷ b'O' ∷ [];
  to_map = λ _. end;
  to_list = λ _. nil;
}

-- The files are the last value that was written.
abbrev io : Files (List Variant)
io = record {
  from_file = λ _ _ _. ok (map end);
  to_file = λ _ _ v _. (v ∷ [], ok tt);
  display = λ _. ok tt;
}

abbrev args : CliArguments
args = record (on_init (record { arguments = []; short_tag_to_name = []; extra_args = [] })).0 {
  extra_args = (b'f' ∷ []) ∷ [];
}

on_exec-Compiled_example : Compiled tools io args [] (on_exec tools io args [])
on_exec-Compiled_example = on_exec-Compiled tools io args []

writes_result : (on_exec tools io args []).1 ≡ ok 0
unfolding on_exec build_result write_result read_files choose_output format_from_name link_result
    linked result get_value is_enabled to_enabled on_init define link link_elements process_all
    intfs_of lookup insert contains value_of
writes_result = refl
