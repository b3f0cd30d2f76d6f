-- ===== src/NinjaBuilder/Tests.antt =====
-- Two programs that share a source, and the text of a small build.
use gitlstreefs.Base.{◌≡◌, refl, [], ◌∷◌, ◌++◌, codes, length}
use gitlstreefs.NinjaBuilder.{
  NinjaBuilder, Config, CompileLinkObject, construct, compile_link, compile_link_run_test,
  set_cclink, cclink_rule, destroy_object, run_test, run_test_script,
}
use gitlstreefs.NinjaBuilder.Lines.{IsSorted}
use gitlstreefs.NinjaBuilder.Compiled.{
  Built, constructed, destroyed, tested, AreCompiled, Built-AreCompiled,
}
use gitlstreefs.NinjaBuilder.Configure.{main}

abbrev config : Config
config = record { cxxflags = codes "-O2"; ldflags = []; gxx = codes "g++"; gcc = codes "gcc" }

abbrev tool : CompileLinkObject
tool = record {
  target = codes "tool";
  sources = codes "util" ∷ codes "tool" ∷ [];
  cclink = codes "cclink";
}

abbrev tool_test : CompileLinkObject
tool_test = record {
  target = codes "tool_test";
  sources = codes "tool_test" ∷ codes "util" ∷ [];
  cclink = codes "cclink";
}

abbrev small : NinjaBuilder
small =
    destroy_object tool_test
      (run_test (codes "tool_test") [] (destroy_object tool (construct config)))

small-Built : Built small (tool_test.sources ++ (tool.sources ++ []))
small-Built =
    destroyed (run_test (codes "tool_test") [] (destroy_object tool (construct config)))
      (tool.sources ++ []) tool_test
      (tested (destroy_object tool (construct config)) (tool.sources ++ []) (codes "tool_test") []
        (destroyed (construct config) [] tool (constructed config)))

small_lines :
    small.uniquify_build_lines
    ≡ codes "build out/tool.o: cc tool.cc"
      ∷ codes "build out/tool_test.o: cc tool_test.cc"
      ∷ codes "build out/util.o: cc util.cc"
      ∷ []
unfolding destroy_object run_test construct
small_lines = refl

-- 37 programs are built from 61 sources.
main_lines : length (main [] []).uniquify_build_lines ≡ 61
unfolding destroy_object run_test run_test_script construct compile_link compile_link_run_test
    cclink_rule set_cclink
main_lines = refl

Built-AreCompiled_example :
    IsSorted small.uniquify_build_lines
    × AreCompiled small.uniquify_build_lines (tool_test.sources ++ (tool.sources ++ []))
Built-AreCompiled_example =
    Built-AreCompiled small (tool_test.sources ++ (tool.sources ++ [])) small-Built
