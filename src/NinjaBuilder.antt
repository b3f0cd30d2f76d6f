-- ===== src/NinjaBuilder.antt =====
-- `NinjaBuilder` of configure.h and the calls of configure.cc: the text of build.ninja. The flags that
-- pkg-config prints are parameters.
pub mod Lines
pub mod Compiled
pub mod Configure
mod Tests
use gitlstreefs.Base.{ℕ, Bool, true, false, List, [], ◌∷◌, ◌++◌, if◌then◌else◌, ltb, Bytes, codes}

-- `operator<` of `std::string`.
abbrev pub less : Bytes → Bytes → Bool
less [] [] = false
less [] (y ∷ t) = true
less (x ∷ s) [] = false
less (x ∷ s) (y ∷ t) = if ltb x y then true else if ltb y x then false else less s t

-- `insert` of `std::set<std::string>`.
abbrev pub insert_line : Bytes → List Bytes → List Bytes
insert_line line [] = line ∷ []
insert_line line (l ∷ ls) =
    if less line l then line ∷ l ∷ ls else if less l line then l ∷ insert_line line ls else l ∷ ls

pub record NinjaBuilder : Type 0 where
  pub data_lines : List Bytes
  pub uniquify_build_lines : List Bytes

pub record Config : Type 0 where
  pub cxxflags : Bytes
  pub ldflags : Bytes
  pub gxx : Bytes
  pub gcc : Bytes

-- The constructor.
unfoldable pub construct : Config → NinjaBuilder
construct config = record {
  data_lines =
      (codes "cxxflags = " ++ config.cxxflags)
      ∷ (codes "ldflags = " ++ config.ldflags)
      ∷ (codes "gxx = " ++ config.gxx)
      ∷ (codes "gcc = " ++ config.gcc)
      ∷ codes "rule cc"
      ∷ codes "  command = $gxx -MMD -MF $out.d $cxxflags -c $in -o $out"
      ∷ codes "  depfile = $out.d"
      ∷ codes "  deps = gcc"
      ∷ codes "rule cclink"
      ∷ codes "  command = $gxx $in -o $out $ldflags"
      ∷ codes "rule runtest"
      ∷ codes "  command = ./$in > $out.tmp 2>&1 && mv $out.tmp $out || ( cat $out.tmp; exit 1 )"
      ∷ codes "rule ninjagenerator"
      ∷ codes "  command = ./$in"
      ∷ codes "  generator = true"
      ∷ codes "build build.ninja: ninjagenerator configure"
      ∷ codes "build configure.o: cc configure.cc"
      ∷ codes "build configure: cclink configure.o"
      ∷ [];
  uniquify_build_lines = [];
}

abbrev pub outdir : Bytes
outdir = codes "out/"

abbrev pub push_back : Bytes → NinjaBuilder → NinjaBuilder
push_back line n = record n { data_lines = n.data_lines ++ line ∷ [] }

-- The rounds of the loop after the first one.
abbrev pub join_more : List Bytes → Bytes → Bytes → Bytes → Bytes
join_more [] prefix postfix split = []
join_more (s ∷ ss) prefix postfix split =
    split ++ (prefix ++ (s ++ (postfix ++ join_more ss prefix postfix split)))

abbrev pub join_strings : List Bytes → Bytes → Bytes → Bytes → Bytes
join_strings [] prefix postfix split = []
join_strings (s ∷ ss) prefix postfix split =
    prefix ++ (s ++ (postfix ++ join_more ss prefix postfix split))

unfoldable pub cclink_rule : Bytes → Bytes → NinjaBuilder → NinjaBuilder
cclink_rule cclink_name command n =
    push_back (codes "  command = " ++ command)
      (push_back (codes "rule " ++ (cclink_name ++ codes " ")) n)

pub record CompileLinkObject : Type 0 where
  pub target : Bytes
  pub sources : List Bytes
  pub cclink : Bytes

unfoldable pub compile_link : Bytes → List Bytes → CompileLinkObject
compile_link target sources = record { target = target; sources = sources; cclink = codes "cclink" }

unfoldable pub set_cclink : Bytes → CompileLinkObject → CompileLinkObject
set_cclink s c = record c { cclink = s }

abbrev pub link_line : CompileLinkObject → Bytes
link_line c =
    codes "build "
    ++ (outdir
        ++ (c.target
            ++ (codes ": "
                ++ (c.cclink
                    ++ (codes " " ++ join_strings c.sources outdir (codes ".o") (codes " "))))))

abbrev pub compile_line : Bytes → Bytes
compile_line source =
    codes "build "
    ++ (outdir ++ (source ++ (codes ".o" ++ (codes ": cc " ++ (source ++ codes ".cc")))))

abbrev pub insert_lines : List Bytes → List Bytes → List Bytes
insert_lines [] lines = lines
insert_lines (source ∷ sources) lines =
    insert_lines sources (insert_line (compile_line source) lines)

-- `~CompileLinkObject`, which runs at the end of the statement that made the object.
unfoldable pub destroy_object : CompileLinkObject → NinjaBuilder → NinjaBuilder
destroy_object c n =
    let linked = push_back (link_line c) n in
    record linked { uniquify_build_lines = insert_lines c.sources linked.uniquify_build_lines }

abbrev pub maybe_extra_depends : List Bytes → Bytes
maybe_extra_depends [] = []
maybe_extra_depends (d ∷ ds) = codes "| " ++ join_strings (d ∷ ds) [] [] (codes " ")

-- The line of a test, whether it is a program or a script.
abbrev pub test_line : Bytes → Bytes → List Bytes → Bytes
test_line stdout test depends =
    codes "build " ++ (stdout ++ (codes ": runtest " ++ (test ++ maybe_extra_depends depends)))

unfoldable pub run_test : Bytes → List Bytes → NinjaBuilder → NinjaBuilder
run_test target depends n =
    let test = outdir ++ target in push_back (test_line (test ++ codes ".result") test depends) n

unfoldable pub run_test_script : Bytes → List Bytes → NinjaBuilder → NinjaBuilder
run_test_script target depends n =
    push_back (test_line (outdir ++ (target ++ codes ".result")) target depends) n

unfoldable pub compile_link_run_test :
    Bytes → List Bytes → List Bytes → NinjaBuilder → CompileLinkObject × NinjaBuilder
unfolding compile_link run_test
compile_link_run_test target sources depends n =
    let n' = run_test target depends n in (compile_link target sources, n')

-- `~NinjaBuilder`: the text that is written to build.ninja.
unfoldable pub emit_build : NinjaBuilder → Bytes
emit_build n =
    join_strings (n.data_lines ++ n.uniquify_build_lines) [] [] (b'\n' ∷ []) ++ b'\n' ∷ []
