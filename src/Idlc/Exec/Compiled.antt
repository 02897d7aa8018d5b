-- ===== src/Idlc/Exec/Compiled.antt =====
-- Which files `IDLc::onExec` writes.
use jsonbus.Prelude.{
  ℕ, ◌≡◌, refl, ◌⊎◌, inl, inr, Bool, true, false, List, is_empty, if_both, if◌then◌else◌, Outcome,
  ok, throw, undefined, out_of_fuel,
}
use jsonbus.Variant.{Items, nil}
use jsonbus.CliArguments.{CliArguments, get_value, is_enabled}
use jsonbus.Proxy.{FileFormat}
use jsonbus.Idlc.Exec.{
  Tools, Files, display_name, dry_run_name, compile_name, output_file_name, output_format_name,
  read_files, choose_output, result, link_result, or_one, unguarded, returning, write_result,
  build_result, on_exec,
}

module _ {F : Type 0} (tools : Tools) (io : Files F) where
  unguarded_cases :
      {A : Type 0} (P : F × Outcome ℕ → Type 0) (files : F) (o : Outcome A) (k : A → F × Outcome ℕ)
      → ((u : Outcome ℕ) → P (files, u))
      → ((a : A) → o ≡ ok a → P (k a))
      → P (unguarded tools io files o k)
  unguarded_cases P files (ok a) k h f = f a refl
  unguarded_cases P files (throw e) k h f = h (throw e)
  unguarded_cases P files undefined k h f = h undefined
  unguarded_cases P files out_of_fuel k h f = h out_of_fuel

  or_one_cases :
      {A : Type 0} (P : F × Outcome ℕ → Type 0) (files : F) (o : Outcome A) (k : A → F × Outcome ℕ)
      → ((u : Outcome ℕ) → P (files, u))
      → ((a : A) → o ≡ ok a → P (k a))
      → P (or_one tools io files o k)
  or_one_cases P files (ok a) k h f = f a refl
  or_one_cases P files (throw e) k h f = h (ok 1)
  or_one_cases P files undefined k h f = h undefined
  or_one_cases P files out_of_fuel k h f = h out_of_fuel

  -- What a run that writes has read, linked and chosen.
  pub record Build (args : CliArguments) (files : F) (r : F × Outcome ℕ) : Type 0 where
    pub members : Items
    pub is_fragment : Bool
    pub format_name : List ℕ
    pub file_name : List ℕ
    pub out_file : List ℕ
    pub format : FileFormat
    pub are_read : read_files tools io args.extra_args nil files ≡ ok members
    pub is_asked : is_enabled compile_name args ≡ ok is_fragment
    pub is_chosen : choose_output tools io format_name file_name ≡ ok (out_file, format)
    pub is_linked : link_result tools io is_fragment members ≡ ok tt
    pub is_real : is_enabled dry_run_name args ≡ ok false
    pub is_written :
        r
        ≡ returning tools io
            (io.to_file out_file format (result tools io is_fragment members) files)

  -- The files are as they were, or the result of the build was written.
  abbrev pub Compiled : CliArguments → F → F × Outcome ℕ → Type 0
  Compiled args files r = (r.0 ≡ files) ⊎ Build args files r

  module _ (args : CliArguments) (files : F) where
    written :
        (members : Items) (frag : Bool) (format_name file_name out_file : List ℕ)
        (format : FileFormat)
        → read_files tools io args.extra_args nil files ≡ ok members
        → is_enabled compile_name args ≡ ok frag
        → choose_output tools io format_name file_name ≡ ok (out_file, format)
        → link_result tools io frag members ≡ ok tt
        → (dry : Bool) → is_enabled dry_run_name args ≡ ok dry
        → Compiled args files (
            if dry
            then (files, ok 0)
            else returning tools io
                (io.to_file out_file format (result tools io frag members) files))
    written members frag format_name file_name out_file format er ea ec el true ed = inl refl
    written members frag format_name file_name out_file format er ea ec el false ed = inr (record {
      members = members;
      is_fragment = frag;
      format_name = format_name;
      file_name = file_name;
      out_file = out_file;
      format = format;
      are_read = er;
      is_asked = ea;
      is_chosen = ec;
      is_linked = el;
      is_real = ed;
      is_written = refl;
    })

    build_result-Compiled :
        (members : Items) (format_name file_name out_file : List ℕ) (format : FileFormat)
        → read_files tools io args.extra_args nil files ≡ ok members
        → choose_output tools io format_name file_name ≡ ok (out_file, format)
        → Compiled args files (build_result tools io args members (out_file, format) files)
    unfolding build_result write_result
    build_result-Compiled members format_name file_name out_file format er ec =
        unguarded_cases (Compiled args files) files (is_enabled compile_name args) _ (λ u. inl refl)
          λ frag ea.
            or_one_cases (Compiled args files) files (link_result tools io frag members) _
              (λ u. inl refl)
              λ _ el.
                unguarded_cases (Compiled args files) files (is_enabled display_name args) _
                  (λ u. inl refl)
                  λ shows _.
                    unguarded_cases (Compiled args files) files
                      (if shows then io.display (result tools io frag members) else ok tt) _
                      (λ u. inl refl)
                      λ _ _.
                        unguarded_cases (Compiled args files) files (is_enabled dry_run_name args) _
                          (λ u. inl refl)
                          (written members frag format_name file_name out_file format er ea ec el)

  -- A run of idlc either leaves all files as they were, or it has read all input files, linked them
  -- where this was asked for, chosen the output, was not a dry run, and ends as writing the one
  -- result to the output file does.
  pub on_exec-Compiled :
      (args : CliArguments) (files : F) → Compiled args files (on_exec tools io args files)
  unfolding on_exec
  on_exec-Compiled args files =
      if_both (Compiled args files) (is_empty args.extra_args) (inl refl) (
        unguarded_cases (Compiled args files) files (get_value output_format_name args) _
          (λ u. inl refl)
          λ f ef.
            unguarded_cases (Compiled args files) files (get_value output_file_name args) _
              (λ u. inl refl)
              λ o eo.
                or_one_cases (Compiled args files) files
                  (read_files tools io args.extra_args nil files) _ (λ u. inl refl)
                  λ res er.
                    or_one_cases (Compiled args files) files
                      (choose_output tools io (tools.to_string f) (tools.to_string o)) _
                      (λ u. inl refl)
                      λ output ec.
                        build_result-Compiled args files res (tools.to_string f) (tools.to_string o)
                          output.0 output.1 er ec)
