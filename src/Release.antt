-- ===== src/Release.antt =====
-- release/release.go and components/common/assets/assets.go: the description of a build, and the
-- files that are built into the program.
use corectl.Base.{
  ℕ, Bool, ◌++◌, Text, codes, has_prefix, drop, if◌then◌else◌, [], Result, ok, err, Option, none,
  some,
}
use corectl.Daemon.{Error, Info}
use corectl.Payload.{decimal}

-- strings.TrimPrefix(t, "v")
unfoldable pub trim_v : Text → Text
trim_v t = if has_prefix t (codes "v") then drop 1 t else t

-- `LatestVersion`, given the tag that GitHub answers: no version where the request fails.
unfoldable pub latest_version : Result Error Text → Text × Option Error
latest_version (ok tag) = (tag, none)
latest_version (err e) = ([], some e)

-- How the time of the build is printed, and how long ago the server was started.
pub record Clock : Type 0 where
  pub stamp : Text → Text
  pub since : ℕ → Text

-- `Info.PrettyPrint`
unfoldable pub pretty_print : Clock → Bool → Info → Text
unfolding trim_v
pretty_print c extended i =
    codes " Version:\t"
    ++ (trim_v i.version
        ++ (codes "\n Go Version:\t"
            ++ (i.runtime
                ++ (codes "\n Built:\t\t"
                    ++ (c.stamp i.built
                        ++ (codes "\n OS/Arch:\t"
                            ++ (i.os
                                ++ (codes "/"
                                    ++ (i.arch
                                        ++ (codes "\n"
                                            ++ (if extended
                                                then codes "\n Pid:\t\t"
                                                  ++ (decimal i.pid
                                                      ++ (codes "\n Uptime:\t"
                                                          ++ (c.since i.started ++ codes "\n\n")))
                                                else [])))))))))))

-- `Contents`, given what the file system answers to the open and then to the read: a file that
-- cannot be read is empty.
unfoldable pub contents : {F : Type 0} → Result Error F → (F → Result Error Text) → Text
contents (err e) read = []
contents (ok f) read = elim (read f) [ err e ↦ [] | ok t ↦ t ]
