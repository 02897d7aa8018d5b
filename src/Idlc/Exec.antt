-- ===== src/Idlc/Exec.antt =====
-- `IDLc::onInit`, `formatFromName`, `Intf::Intf` and `IDLc::onExec` of nodebus/idlc/idlc.cpp. Qt's
-- conversions and QFileInfo::suffix are arguments, and so are the reading and the writing of files.
pub mod Compiled
use jsonbus.Prelude.{
  ℕ, Bool, true, false, not, List, [], ◌∷◌, ◌++◌, Option, none, some, is_empty, if◌then◌else◌,
  Exception, application_exception, error_parser_exception, Outcome, ok, throw, undefined,
  out_of_fuel, bind,
}
use jsonbus.Dict.{text_same}
use jsonbus.Variant.{Variant, int, bool, string, list, map, Items, nil, cons, Fields, end, insert}
use jsonbus.CliArguments.{CliArguments, Step, define, get_value, is_enabled}
use jsonbus.Proxy.{FileFormat, json, bson, bcon, idl, value_of}
use jsonbus.Idlc.{Name, Intf, Linker, insert_name, link}

abbrev pub display_name : List ℕ
display_name = b'd' ∷ b'i' ∷ b's' ∷ b'p' ∷ b'l' ∷ b'a' ∷ b'y' ∷ []

abbrev pub dry_run_name : List ℕ
dry_run_name = b'd' ∷ b'r' ∷ b'y' ∷ b'-' ∷ b'r' ∷ b'u' ∷ b'n' ∷ []

abbrev pub output_file_name : List ℕ
output_file_name = b'o' ∷ b'u' ∷ b't' ∷ b'p' ∷ b'u' ∷ b't' ∷ b'-' ∷ b'f' ∷ b'i' ∷ b'l' ∷ b'e' ∷ []

abbrev pub output_format_name : List ℕ
output_format_name =
    b'o' ∷ b'u' ∷ b't' ∷ b'p' ∷ b'u' ∷ b't' ∷ b'-' ∷ b'f' ∷ b'o' ∷ b'r' ∷ b'm' ∷ b'a' ∷ b't' ∷ []

abbrev pub compile_name : List ℕ
compile_name = b'c' ∷ b'o' ∷ b'm' ∷ b'p' ∷ b'i' ∷ b'l' ∷ b'e' ∷ []

abbrev pub auto : List ℕ
auto = b'A' ∷ b'U' ∷ b'T' ∷ b'O' ∷ []

abbrev pub metadb : List ℕ
metadb = b'm' ∷ b'e' ∷ b't' ∷ b'a' ∷ b'd' ∷ b'b' ∷ b'.' ∷ []

abbrev chain : Step → (CliArguments → Step) → Step
chain (args, none) k = k args
chain (args, some e) k = (args, some e)

-- `onInit`, without the texts of the help.
unfoldable pub on_init : CliArguments → Step
on_init args = chain (define display_name b'd' (bool false) args) λ a.
    chain (define dry_run_name b'n' (bool false) a) λ b.
      chain (define output_file_name b'o' (string []) b) λ c.
        chain (define output_format_name b'f' (string auto) c)
          λ d. define compile_name b'c' (bool false) d

-- `QFileInfo::suffix`, `QString::toUpper` and `toLower`, and the conversions of QVariant.
pub record Tools : Type 0 where
  pub suffix : List ℕ → List ℕ
  pub upper : List ℕ → List ℕ
  pub lower : List ℕ → List ℕ
  pub to_string : Variant → List ℕ
  pub to_map : Variant → Fields
  pub to_list : Variant → Items

-- `Intf::Intf` takes the names of the members and the parents from the node.
unfoldable pub member_names : Tools → Items → List Name → List Name
unfolding insert_name
member_names tools nil names = names
member_names tools (cons v items) names =
    member_names tools items
      (insert_name (tools.to_string (value_of (b'n' ∷ []) (tools.to_map v))) names)

unfoldable pub texts_of : Tools → Items → List Name
texts_of tools nil = []
texts_of tools (cons v items) = tools.to_string v ∷ texts_of tools items

-- `Intf::Intf`
unfoldable pub new_intf : Tools → Fields → Name × Intf
unfolding member_names texts_of
new_intf tools node = (
  tools.to_string (value_of (b'n' ∷ []) node),
  record {
    members = member_names tools (tools.to_list (value_of (b'm' ∷ []) node)) [];
    parents = texts_of tools (tools.to_list (value_of (b'P' ∷ []) node));
  },
)

unfoldable pub intfs_of : Tools → Items → List (Name × Intf)
unfolding new_intf
intfs_of tools nil = []
intfs_of tools (cons v items) = new_intf tools (tools.to_map v) ∷ intfs_of tools items

-- `formatFromName`
unfoldable pub format_from_name : Tools → List ℕ → Outcome FileFormat
format_from_name tools fmt =
    let name = tools.upper fmt in
    if text_same name (b'I' ∷ b'D' ∷ b'L' ∷ [])
    then ok idl
    else if text_same name (b'B' ∷ b'C' ∷ b'O' ∷ b'N' ∷ [])
    then ok bcon
    else if text_same name (b'B' ∷ b'S' ∷ b'O' ∷ b'N' ∷ [])
    then ok bson
    else if text_same name (b'J' ∷ b'S' ∷ b'O' ∷ b'N' ∷ [])
    then ok json
    else throw application_exception

abbrev pub append_items : Items → Items → Items
append_items nil ys = ys
append_items (cons v xs) ys = cons v (append_items xs ys)

-- `Parser::fromFile`, `Serializer::toFile` with its files, and what printing the result comes to.
pub record Files (F : Type 0) : Type 1 where
  pub from_file : List ℕ → FileFormat → F → Outcome Variant
  pub to_file : List ℕ → FileFormat → Variant → F → F × Outcome (Unit {0})
  pub display : Variant → Outcome (Unit {0})

module _ {F : Type 0} (tools : Tools) (io : Files F) where
  -- The loop over the input files, with `resList` so far.
  unfoldable pub read_files : List (List ℕ) → Items → F → Outcome Items
  unfolding format_from_name
  read_files [] res files = ok res
  read_files (file ∷ more) res files = bind (format_from_name tools (tools.suffix file)) λ format.
      bind (io.from_file file format files) λ v.
        read_files more (append_items res (tools.to_list (value_of (b'm' ∷ []) (tools.to_map v))))
          files

  -- The name and the format of the output.
  unfoldable pub choose_output : List ℕ → List ℕ → Outcome (List ℕ × FileFormat)
  unfolding format_from_name
  choose_output format_str out_file =
      if text_same format_str auto
      then (if is_empty out_file
          then ok (metadb ++ b'b' ∷ b'c' ∷ b'o' ∷ b'n' ∷ [], bcon)
          else bind (format_from_name tools (tools.suffix out_file))
              λ format. ok (out_file, format))
      else bind (format_from_name tools format_str) λ format.
        ok (if is_empty out_file then metadb ++ tools.lower format_str else out_file, format)

  -- The map that is written.
  unfoldable pub result : Bool → Items → Variant
  result is_fragment res = map (
      insert (b'm' ∷ []) (list res) (
        insert (b'T' ∷ []) (string ((if is_fragment then b'F' else b'B') ∷ []))
          (insert (b'V' ∷ []) (int 1) end)))

  abbrev pub new_linker : Linker
  new_linker = record {
    sym_tbl = [];
    mark = λ _. false;
    completed = λ _. false;
    ancestors = λ _. [];
    errors = [];
  }

  -- `link` with its exception.
  unfoldable pub linked : Option Linker → Outcome (Unit {0})
  linked none = out_of_fuel
  linked (some s) = if is_empty s.errors then ok tt else throw error_parser_exception

  -- The branch on `compile`.
  unfoldable pub link_result : Bool → Items → Outcome (Unit {0})
  unfolding linked intfs_of
  link_result is_fragment res =
      if is_fragment then ok tt else linked (link (intfs_of tools res) new_linker)

  -- A `try` whose handler prints the error and returns 1.
  abbrev pub or_one : {A : Type 0} → F → Outcome A → (A → F × Outcome ℕ) → F × Outcome ℕ
  or_one files (ok a) k = k a
  or_one files (throw e) k = (files, ok 1)
  or_one files undefined k = (files, undefined)
  or_one files out_of_fuel k = (files, out_of_fuel)

  -- A call that is not guarded.
  abbrev pub unguarded : {A : Type 0} → F → Outcome A → (A → F × Outcome ℕ) → F × Outcome ℕ
  unguarded files (ok a) k = k a
  unguarded files (throw e) k = (files, throw e)
  unguarded files undefined k = (files, undefined)
  unguarded files out_of_fuel k = (files, out_of_fuel)

  abbrev pub returning : F × Outcome (Unit {0}) → F × Outcome ℕ
  returning (files, ok _) = (files, ok 0)
  returning (files, throw e) = (files, throw e)
  returning (files, undefined) = (files, undefined)
  returning (files, out_of_fuel) = (files, out_of_fuel)

  -- The end of `onExec`.
  unfoldable pub write_result : CliArguments → List ℕ → FileFormat → Variant → F → F × Outcome ℕ
  write_result args out_file format v files =
      unguarded files (is_enabled display_name args) λ shows.
        unguarded files (if shows then io.display v else ok tt) λ _.
          unguarded files (is_enabled dry_run_name args)
            λ dry. if dry then (files, ok 0) else returning (io.to_file out_file format v files)

  -- What follows the first `try`.
  unfoldable pub build_result : CliArguments → Items → List ℕ × FileFormat → F → F × Outcome ℕ
  unfolding link_result result write_result
  build_result args res (out_file, format) files =
      unguarded files (is_enabled compile_name args) λ is_fragment.
        or_one files (link_result is_fragment res)
          λ _. write_result args out_file format (result is_fragment res) files

  -- `onExec`
  unfoldable pub on_exec : CliArguments → F → F × Outcome ℕ
  unfolding read_files choose_output build_result
  on_exec args files =
      if is_empty args.extra_args
      then (files, ok 1)
      else unguarded files (get_value output_format_name args) λ format.
        unguarded files (get_value output_file_name args) λ out.
          or_one files (read_files args.extra_args nil files) λ res.
            or_one files (choose_output (tools.to_string format) (tools.to_string out))
              λ output. build_result args res output files
