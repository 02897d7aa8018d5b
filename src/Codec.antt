-- ===== src/Codec.antt =====
-- The entries of nodebus/core/parser.cpp and serializer.cpp: `Serializer::serialize` and `toFile`,
-- `Parser::parse` and `fromFile`. A file that does not open is one that the caller may not open, or, for
-- reading, one that is not there. The JSON parser, which bison makes, and the IDL driver are arguments.
use jsonbus.Prelude.{
  ℕ, ◌≡◌, refl, ap, ◌∙◌, sym, Bool, true, not, List, [], append-nil, none, some, if◌then◌else◌,
  exception, io_exception, Outcome, ok, throw, undefined, out_of_fuel, bind,
}
use jsonbus.Dict.{text_eq, Dict, lookup, insert, lookup-insert, same_self}
use jsonbus.DataStream.{Reader}
use jsonbus.Variant.{Variant, Qt}
use jsonbus.Bcon.Write.{Emit, serialize_bcon}
use jsonbus.Bcon.Top.{parse, parse-serialize_bcon}
use jsonbus.Bcon.Portable.{IsAscii, IsPortable, received}
use jsonbus.Bson.{BsonQt}
use jsonbus.Bson.Write.{serialize_bson_document}
use jsonbus.Bson.Read.{parse_bson_document}
use jsonbus.Json.Write.{Texts, serialize_json}
use jsonbus.Proxy.{FileFormat, json, bson, bcon, idl}

abbrev pub Files : Type 0
Files = Dict (List ℕ) (List ℕ)

-- What was written, and how the writing ended.
abbrev pub Written : Type 0
Written = List ℕ × Outcome (Unit {0})

abbrev pub written : Emit → Written
written (bytes, none) = (bytes, ok tt)
written (bytes, some e) = (bytes, throw e)

written_bytes : (e : Emit) → (written e).0 ≡ e.0
written_bytes (bytes, none) = refl
written_bytes (bytes, some x) = refl

abbrev pub write_whole : Outcome (List ℕ) → Written
write_whole (ok bytes) = (bytes, ok tt)
write_whole (throw e) = ([], throw e)
write_whole undefined = ([], undefined)
write_whole out_of_fuel = ([], out_of_fuel)

module _ (qt : Qt) (bqt : BsonQt) (texts : Texts) (host : Bool) where
  -- `Serializer::serialize`
  unfoldable pub serialize : FileFormat → Variant → ℕ → Written
  serialize bcon v flags = written (serialize_bcon qt host v none)
  serialize bson v flags = write_whole (serialize_bson_document qt bqt host v)
  serialize json v flags = written (serialize_json qt texts v flags)
  serialize idl v flags = ([], throw exception)

  -- The cases of `Serializer::toFile` that write: the file is cut to what is written.
  unfoldable pub write_file :
      Bool → List ℕ → FileFormat → Variant → ℕ → Files → Files × Outcome (Unit {0})
  unfolding serialize
  write_file opens name format v flags files =
      if not opens
      then (files, throw io_exception)
      else let (bytes, o) = serialize format v flags in (insert name bytes files, o)

  -- `Serializer::toFile`
  unfoldable pub to_file :
      Bool → List ℕ → FileFormat → Variant → ℕ → Files → Files × Outcome (Unit {0})
  unfolding write_file
  to_file opens name bcon v flags files = write_file opens name bcon v flags files
  to_file opens name bson v flags files = write_file opens name bson v flags files
  to_file opens name json v flags files = write_file opens name json v flags files
  to_file opens name idl v flags files = (files, throw exception)

  module _ (parse_json : Reader Variant) (parse_idl : List ℕ → Outcome Variant) (fuel : ℕ) where
    -- `Parser::parse` on a stream
    unfoldable pub parse_stream : FileFormat → Reader Variant
    parse_stream bcon bytes = parse qt host bytes
    parse_stream bson bytes = parse_bson_document qt bqt host fuel bytes
    parse_stream json bytes = parse_json bytes
    parse_stream idl bytes = throw exception

    -- The static `Parser::parse` on data: it takes a format and makes a parser without one.
    unfoldable pub parse_data : FileFormat → List ℕ → Outcome Variant
    unfolding parse_stream
    parse_data format bytes = bind (parse_stream json bytes) λ (v, left). ok v

    -- The cases of `Parser::fromFile` that read.
    unfoldable pub read_file : Bool → List ℕ → FileFormat → Files → Outcome Variant
    unfolding parse_stream
    read_file opens name format files =
        if not opens then throw io_exception else elim (lookup name files) [
          | none ↦ throw io_exception
          | some bytes ↦ bind (parse_stream format bytes) λ (v, left). ok v
        ]

    -- `Parser::fromFile`
    unfoldable pub from_file : Bool → List ℕ → FileFormat → Files → Outcome Variant
    unfolding read_file
    from_file opens name bcon files = read_file opens name bcon files
    from_file opens name bson files = read_file opens name bson files
    from_file opens name json files = read_file opens name json files
    from_file opens name idl files = parse_idl name

    read_file-written :
        (name bytes : List ℕ) (format : FileFormat) (files : Files)
        → read_file true name format (insert name bytes files)
          ≡ bind (parse_stream format bytes) λ (v, left). ok v
    unfolding read_file
    read_file-written name bytes format files =
        let e : lookup name (insert name bytes files) ≡ some bytes =
          lookup-insert name name bytes files ∙ rw (same_self name) refl in
        rw (read_file, e) refl

    -- A file that opens, to which toFile wrote a portable value as BCON, gives that value with its
    -- documented promotions by fromFile with BCON, whatever the file had before.
    pub from_file-to_file :
        (name : List ℕ) (v : Variant) (flags : ℕ) (files : Files)
        → IsAscii qt
        → IsPortable qt v
        → from_file true name bcon (to_file true name bcon v flags files).0 ≡ ok (received v)
    unfolding from_file to_file write_file serialize
    from_file-to_file name v flags files ascii h =
        let e = serialize_bcon qt host v none in
        let p : parse qt host e.0 ≡ ok (received v, []) =
          ap (parse qt host) (sym (append-nil e.0))
          ∙ parse-serialize_bcon qt host host v [] ascii h in
        read_file-written name (written e).0 bcon files ∙ rw (written_bytes e, p) refl
