-- ===== src/Enum/Package.antt =====
-- source/core/enum/enum.c: the enumerations of the package and the names they are written with.
-- A branch that the code declares unreachable gives `none`.
use spn.Base.{String, str_eq, if◌then◌else◌, Option, none, some}

pub data PkgSource : Type 0 where
  source_root source_file source_index : PkgSource

unfoldable pub pkg_source_to_str : PkgSource → String
pkg_source_to_str source_root = "root"
pkg_source_to_str source_file = "file"
pkg_source_to_str source_index = "index"

unfoldable pub pkg_source_from_str : String → Option PkgSource
pkg_source_from_str str =
    if str_eq str "root"
    then some source_root
    else if str_eq str "file"
    then some source_file
    else if str_eq str "index"
    then some source_index
    else none

pub data PkgRootKind : Type 0 where
  root_none root_local root_git : PkgRootKind

unfoldable pub pkg_root_kind_to_str : PkgRootKind → String
pkg_root_kind_to_str root_none = "none"
pkg_root_kind_to_str root_local = "local"
pkg_root_kind_to_str root_git = "git"

unfoldable pub pkg_root_kind_from_str : String → Option PkgRootKind
pkg_root_kind_from_str str =
    if str_eq str "none"
    then some root_none
    else if str_eq str "local"
    then some root_local
    else if str_eq str "git"
    then some root_git
    else none

pub data DepKind : Type 0 where
  dep_package dep_build dep_test : DepKind

unfoldable pub dep_kind_to_str : DepKind → String
dep_kind_to_str dep_package = "package"
dep_kind_to_str dep_build = "build"
dep_kind_to_str dep_test = "test"

unfoldable pub dep_kind_from_str : String → DepKind
dep_kind_from_str str =
    if str_eq str "package"
    then dep_package
    else if str_eq str "build"
    then dep_build
    else if str_eq str "test"
    then dep_test
    else dep_package

pub data DepEdge : Type 0 where
  edge_scope edge_process edge_private edge_pruned : DepEdge

unfoldable pub dep_edge_to_str : DepEdge → String
dep_edge_to_str edge_scope = "scope"
dep_edge_to_str edge_process = "process"
dep_edge_to_str edge_private = "private"
dep_edge_to_str edge_pruned = "pruned"

unfoldable pub dep_edge_from_str : String → DepEdge
dep_edge_from_str str =
    if str_eq str "scope"
    then edge_scope
    else if str_eq str "process"
    then edge_process
    else if str_eq str "private"
    then edge_private
    else if str_eq str "pruned"
    then edge_pruned
    else edge_scope

pub data IndexKind : Type 0 where
  index_workspace index_builtin index_user : IndexKind

unfoldable pub index_kind_to_str : IndexKind → String
index_kind_to_str index_workspace = "workspace"
index_kind_to_str index_builtin = "builtin"
index_kind_to_str index_user = "user"

unfoldable pub index_kind_from_str : String → Option IndexKind
index_kind_from_str str =
    if str_eq str "workspace"
    then some index_workspace
    else if str_eq str "builtin"
    then some index_builtin
    else if str_eq str "user"
    then some index_user
    else none

pub data IndexDepKind : Type 0 where
  index_dep_normal index_dep_build index_dep_test : IndexDepKind

unfoldable pub index_dep_kind_to_str : IndexDepKind → String
index_dep_kind_to_str index_dep_normal = "normal"
index_dep_kind_to_str index_dep_build = "build"
index_dep_kind_to_str index_dep_test = "test"

unfoldable pub index_dep_kind_from_str : String → IndexDepKind
index_dep_kind_from_str str =
    if str_eq str "normal"
    then index_dep_normal
    else if str_eq str "build"
    then index_dep_build
    else if str_eq str "test"
    then index_dep_test
    else index_dep_normal

pub data IndexProtocol : Type 0 where
  protocol_git protocol_http protocol_dir : IndexProtocol

unfoldable pub index_protocol_to_str : IndexProtocol → String
index_protocol_to_str protocol_git = "git"
index_protocol_to_str protocol_http = "http"
index_protocol_to_str protocol_dir = "dir"

unfoldable pub index_protocol_from_str : String → Option IndexProtocol
index_protocol_from_str str =
    if str_eq str "git"
    then some protocol_git
    else if str_eq str "http"
    then some protocol_http
    else if str_eq str "dir"
    then some protocol_dir
    else none
