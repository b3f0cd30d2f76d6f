-- ===== src/NinjaBuilder/Configure.antt =====
-- configure.cc: the calls that describe the build. A statement makes an object that is destroyed at its
-- end.
use gitlstreefs.Base.{List, [], ◌∷◌, ◌++◌, Bytes, codes}
use gitlstreefs.NinjaBuilder.{
  NinjaBuilder, Config, construct, cclink_rule, compile_link, compile_link_run_test, set_cclink,
  destroy_object, run_test_script,
}

abbrev link_program : Bytes → List Bytes → NinjaBuilder → NinjaBuilder
link_program target sources n = destroy_object (compile_link target sources) n

abbrev link_with : Bytes → Bytes → List Bytes → NinjaBuilder → NinjaBuilder
link_with cclink target sources n =
    destroy_object (set_cclink cclink (compile_link target sources)) n

abbrev link_and_test : Bytes → List Bytes → List Bytes → NinjaBuilder → NinjaBuilder
link_and_test target sources depends n =
    let r = compile_link_run_test target sources depends n in destroy_object (r.0) (r.1)

abbrev link_and_test_with : Bytes → Bytes → List Bytes → List Bytes → NinjaBuilder → NinjaBuilder
link_and_test_with cclink target sources depends n =
    let r = compile_link_run_test target sources depends n in
    destroy_object (set_cclink cclink (r.0)) (r.1)

abbrev run_statements : List (NinjaBuilder → NinjaBuilder) → NinjaBuilder → NinjaBuilder
run_statements [] n = n
run_statements (s ∷ ss) n = run_statements ss (s n)

-- `CompileExperimental`.
abbrev pub compile_experimental : NinjaBuilder → NinjaBuilder
compile_experimental n =
    run_statements
      ((λ n.
          link_with (codes "cclinkwithgit2") (codes "experimental/gitfs")
            (codes "experimental/gitfs"
              ∷ codes "experimental/gitfs_fusemain"
              ∷ codes "strutil"
              ∷ codes "get_current_dir"
              ∷ codes "experimental/gitxx"
              ∷ codes "basename"
              ∷ [])
            n)
        ∷ (λ n.
            link_and_test_with (codes "cclinkwithgit2") (codes "experimental/gitfs_test")
              (codes "experimental/gitfs"
                ∷ codes "experimental/gitfs_test"
                ∷ codes "strutil"
                ∷ codes "get_current_dir"
                ∷ codes "experimental/gitxx"
                ∷ codes "basename"
                ∷ [])
              (codes "out/fetch_test_repo.sh.result" ∷ []) n)
        ∷ (λ n.
            link_and_test_with (codes "cclinkwithgit2") (codes "experimental/libgit2test")
              (codes "experimental/libgit2test" ∷ codes "experimental/gitxx" ∷ [])
              (codes "out/fetch_test_repo.sh.result" ∷ []) n)
        ∷ (λ n.
            link_program (codes "experimental/hello_fuseflags")
              (codes "experimental/hello_fuseflags" ∷ []) n)
        ∷ (λ n.
            link_program (codes "experimental/unkofs")
              (codes "experimental/unkofs"
                ∷ codes "experimental/roptfs"
                ∷ codes "relative_path"
                ∷ codes "update_rlimit"
                ∷ [])
              n)
        ∷ (λ n.
            run_test_script (codes "experimental/unkofs_test.sh")
              (codes "out/experimental/unkofs" ∷ []) n)
        ∷ (λ n.
            link_program (codes "experimental/globfs")
              (codes "experimental/globfs"
                ∷ codes "experimental/roptfs"
                ∷ codes "relative_path"
                ∷ codes "update_rlimit"
                ∷ [])
              n)
        ∷ (λ n.
            run_test_script (codes "experimental/globfs_test.sh")
              (codes "out/experimental/globfs" ∷ []) n)
        ∷ (λ n.
            link_program (codes "experimental/parallel_writer")
              (codes "experimental/parallel_writer" ∷ []) n)
        ∷ (λ n.
            link_program (codes "experimental/cpiofs")
              (codes "basename"
                ∷ codes "directory_container"
                ∷ codes "get_current_dir"
                ∷ codes "experimental/cpiofs"
                ∷ codes "strutil"
                ∷ [])
              n)
        ∷ (λ n.
            run_test_script (codes "experimental/cpiofs_test.sh")
              (codes "out/experimental/cpiofs" ∷ []) n)
        ∷ (λ n.
            link_program (codes "experimental/ext2")
              (codes "experimental/ext2"
                ∷ codes "basename"
                ∷ codes "directory_container"
                ∷ codes "get_current_dir"
                ∷ codes "strutil"
                ∷ [])
              n)
        ∷ (λ n.
            run_test_script (codes "experimental/ext2_test.sh") (codes "out/experimental/ext2" ∷ [])
              n)
        ∷ [])
      n

-- `main`, with what pkg-config prints.
abbrev pub main : Bytes → Bytes → NinjaBuilder
main fuse_cflags fuse_libs =
    let config : Config = record {
      cxxflags =
          codes "-O2 -g --std=c++20 -Wall -Werror -D_FILE_OFFSET_BITS=64 -I. " ++ fuse_cflags;
      ldflags = codes "-pthread " ++ fuse_libs;
      gxx = codes "g++";
      gcc = codes "gcc";
    } in
    compile_experimental (
      run_statements
        ((λ n. cclink_rule (codes "cclinkwithgit2") (codes "$gxx $in -o $out -lgit2 $ldflags") n)
          ∷ (λ n. cclink_rule (codes "cclinkcowfs") (codes "$gxx $in -o $out -lgcrypt $ldflags") n)
          ∷ (λ n.
              link_and_test (codes "gitlstree_test")
                (codes "basename"
                  ∷ codes "cached_file"
                  ∷ codes "concurrency_limit"
                  ∷ codes "directory_container"
                  ∷ codes "get_current_dir"
                  ∷ codes "git_cat_file"
                  ∷ codes "gitlstree"
                  ∷ codes "gitlstree_test"
                  ∷ codes "scoped_timer"
                  ∷ codes "stats_holder"
                  ∷ codes "strutil"
                  ∷ [])
                (codes "out/fetch_test_repo.sh.result" ∷ []) n)
          ∷ (λ n.
              link_program (codes "gitlstree")
                (codes "basename"
                  ∷ codes "cached_file"
                  ∷ codes "concurrency_limit"
                  ∷ codes "directory_container"
                  ∷ codes "get_current_dir"
                  ∷ codes "git_adapter"
                  ∷ codes "git_cat_file"
                  ∷ codes "gitlstree"
                  ∷ codes "gitlstree_fusemain"
                  ∷ codes "scoped_timer"
                  ∷ codes "stats_holder"
                  ∷ codes "strutil"
                  ∷ [])
                n)
          ∷ (λ n.
              link_and_test (codes "strutil_test") (codes "strutil" ∷ codes "strutil_test" ∷ []) []
                n)
          ∷ (λ n.
              link_program (codes "ninjafs")
                (codes "basename"
                  ∷ codes "directory_container"
                  ∷ codes "get_current_dir"
                  ∷ codes "ninjafs"
                  ∷ codes "strutil"
                  ∷ [])
                n)
          ∷ (λ n. run_test_script (codes "ninjafs_test.sh") (codes "out/ninjafs" ∷ []) n)
          ∷ (λ n. link_program (codes "hello_world") (codes "hello_world" ∷ []) n)
          ∷ (λ n.
              link_and_test (codes "basename_test") (codes "basename_test" ∷ codes "basename" ∷ [])
                [] n)
          ∷ (λ n.
              link_and_test (codes "git-githubfs_test")
                (codes "base64decode"
                  ∷ codes "basename"
                  ∷ codes "cached_file"
                  ∷ codes "concurrency_limit"
                  ∷ codes "directory_container"
                  ∷ codes "get_current_dir"
                  ∷ codes "git-githubfs_test"
                  ∷ codes "git-githubfs"
                  ∷ codes "jsonparser"
                  ∷ codes "scoped_timer"
                  ∷ codes "stats_holder"
                  ∷ codes "strutil"
                  ∷ [])
                [] n)
          ∷ (λ n.
              link_program (codes "git-githubfs")
                (codes "base64decode"
                  ∷ codes "basename"
                  ∷ codes "cached_file"
                  ∷ codes "concurrency_limit"
                  ∷ codes "directory_container"
                  ∷ codes "get_current_dir"
                  ∷ codes "git_adapter"
                  ∷ codes "git-githubfs_fusemain"
                  ∷ codes "git-githubfs"
                  ∷ codes "jsonparser"
                  ∷ codes "scoped_timer"
                  ∷ codes "stats_holder"
                  ∷ codes "strutil"
                  ∷ [])
                n)
          ∷ (λ n.
              link_and_test (codes "concurrency_limit_test")
                (codes "concurrency_limit_test" ∷ codes "concurrency_limit" ∷ []) [] n)
          ∷ (λ n.
              link_and_test (codes "directory_container_test")
                (codes "directory_container"
                  ∷ codes "directory_container_test"
                  ∷ codes "basename"
                  ∷ [])
                [] n)
          ∷ (λ n. link_program (codes "git_ioctl_client") (codes "git_ioctl_client" ∷ []) n)
          ∷ (λ n. link_and_test (codes "scoped_fd_test") (codes "scoped_fd_test" ∷ []) [] n)
          ∷ (λ n.
              link_and_test (codes "cached_file_test")
                (codes "cached_file" ∷ codes "cached_file_test" ∷ codes "stats_holder" ∷ []) [] n)
          ∷ (λ n.
              link_program (codes "cached_file_util")
                (codes "cached_file" ∷ codes "cached_file_util" ∷ codes "stats_holder" ∷ []) n)
          ∷ (λ n.
              link_and_test (codes "base64decode_test")
                (codes "base64decode" ∷ codes "base64decode_test" ∷ []) [] n)
          ∷ (λ n.
              link_and_test (codes "base64decode_benchmark")
                (codes "base64decode" ∷ codes "base64decode_benchmark" ∷ codes "strutil" ∷ []) [] n)
          ∷ (λ n.
              link_and_test (codes "scoped_fileutil_test")
                (codes "scoped_fileutil_test" ∷ codes "scoped_fileutil" ∷ []) [] n)
          ∷ (λ n.
              link_and_test (codes "jsonparser_test")
                (codes "jsonparser_test" ∷ codes "jsonparser" ∷ []) [] n)
          ∷ (λ n.
              link_program (codes "jsonparser_util")
                (codes "jsonparser_util" ∷ codes "jsonparser" ∷ codes "strutil" ∷ []) n)
          ∷ (λ n.
              link_and_test (codes "scoped_timer_test")
                (codes "scoped_timer" ∷ codes "scoped_timer_test" ∷ codes "stats_holder" ∷ []) [] n)
          ∷ (λ n.
              link_and_test (codes "gitiles_test")
                (codes "base64decode"
                  ∷ codes "gitiles_test"
                  ∷ codes "jsonparser"
                  ∷ codes "strutil"
                  ∷ [])
                [] n)
          ∷ (λ n.
              link_and_test (codes "git_cat_file_test")
                (codes "get_current_dir"
                  ∷ codes "git_cat_file"
                  ∷ codes "git_cat_file_test"
                  ∷ codes "scoped_timer"
                  ∷ codes "stats_holder"
                  ∷ codes "strutil"
                  ∷ [])
                [] n)
          ∷ (λ n. run_test_script (codes "fetch_test_repo.sh") [] n)
          ∷ (λ n.
              link_with (codes "cclinkcowfs") (codes "cowfs")
                (codes "cowfs"
                  ∷ codes "cowfs_crypt"
                  ∷ codes "file_copy"
                  ∷ codes "ptfs"
                  ∷ codes "ptfs_handler"
                  ∷ codes "relative_path"
                  ∷ codes "scoped_fileutil"
                  ∷ codes "strutil"
                  ∷ codes "update_rlimit"
                  ∷ [])
                n)
          ∷ (λ n.
              link_and_test_with (codes "cclinkcowfs") (codes "cowfs_crypt_test")
                (codes "cowfs_crypt" ∷ codes "cowfs_crypt_test" ∷ []) [] n)
          ∷ (λ n.
              run_test_script (codes "cowfs_test.sh")
                (codes "out/cowfs" ∷ codes "out/hello_world" ∷ []) n)
          ∷ (λ n.
              link_program (codes "ptfs")
                (codes "ptfs_main"
                  ∷ codes "ptfs"
                  ∷ codes "ptfs_handler"
                  ∷ codes "relative_path"
                  ∷ codes "scoped_fileutil"
                  ∷ codes "strutil"
                  ∷ codes "update_rlimit"
                  ∷ [])
                n)
          ∷ (λ n.
              run_test_script (codes "ptfs_test.sh")
                (codes "out/ptfs" ∷ codes "out/renameat2" ∷ codes "out/ptfs_exercise" ∷ []) n)
          ∷ (λ n. link_program (codes "ptfs_exercise") (codes "ptfs_exercise" ∷ []) n)
          ∷ (λ n.
              link_program (codes "file_copy_test")
                (codes "file_copy" ∷ codes "file_copy_test" ∷ []) n)
          ∷ (λ n. link_program (codes "renameat2") (codes "renameat2" ∷ []) n)
          ∷ [])
        (construct config))
