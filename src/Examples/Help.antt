-- ===== src/Examples/Help.antt =====
-- The texts that `print_help` of each program of examples/ prints, with COMMON_HELP of
-- examples/parse_args.h at the end.
pub mod Documented
pub mod Undocumented
pub mod Rejected
pub mod Known
use zenoh_flat_c.Base.{◌++◌}
use zenoh_flat_c.Base.Text.{Str, codes}
use zenoh_flat_c.Base.Decimal.{decimal}
use zenoh_flat_c.Enums.{priority_value, real_time, background}
use zenoh_flat_c.Examples.Put
use zenoh_flat_c.Examples.Delete
use zenoh_flat_c.Examples.Pub
use zenoh_flat_c.Examples.Sub
use zenoh_flat_c.Examples.Queryable
use zenoh_flat_c.Examples.Get
use zenoh_flat_c.Examples.PubThr
use zenoh_flat_c.Examples.SubThr

unfoldable pub common_help : Str
common_help =
    codes
      "        -c, --config <CONFIG> (optional, string): The path to a configuration file for the session. If this option isn't passed, the default configuration will be used.\n"
    ++ (codes
          "        -m, --mode <MODE> (optional, string, default='peer'): The zenoh session mode. [possible values: peer, client, router]\n"
        ++ (codes
              "        -e, --connect <CONNECT> (optional, string): Endpoint to connect to. Repeat option to pass multiple endpoints. If none are given, endpoints will be discovered through multicast-scouting if it is enabled.\n"
            ++ (codes "            e.g.: '-e tcp/192.168.1.1:7447'\n"
                ++ (codes
                      "        -l, --listen <LISTEN> (optional, string): Locator to listen on. Repeat option to pass multiple locators. If none are given, the default configuration will be used.\n"
                    ++ (codes "            e.g.: '-l tcp/192.168.1.1:7447'\n"
                        ++ (codes
                              "        --no-multicast-scouting (optional): By default zenohd replies to multicast scouting messages for being discovered by peers and clients. This option disables this feature.\n"
                            ++ (codes
                                  "        --cfg (optional, string): Allows arbitrary configuration changes as column-separated KEY:VALUE pairs. Where KEY must be a valid config path and VALUE must be a valid JSON5 string that can be deserialized to the expected type for the KEY field. Example: --cfg='transport/unicast/max_links:2'.\n"
                                ++ (codes "        -h, --help: Print help\n"))))))))

unfoldable pub put_help : Str
unfolding common_help
put_help =
    codes "    Usage: z_put [OPTIONS]\n"
    ++ (codes "\n"
        ++ (codes "    Options:\n"
            ++ (codes "        -k, --key <KEYEXPR> (optional, string, default='"
                ++ (Put.default_keyexpr
                    ++ (codes "'): The key expression to write to\n"
                        ++ (codes "        -p, --payload <PAYLOAD> (optional, string, default='"
                            ++ (Put.default_value
                                ++ (codes "'): The value to write\n" ++ (common_help)))))))))

unfoldable pub delete_help : Str
unfolding common_help
delete_help =
    codes "    Usage: z_delete [OPTIONS]\n"
    ++ (codes "\n"
        ++ (codes "    Options:\n"
            ++ (codes "        -k, --key <KEYEXPR> (optional, string, default='"
                ++ (Delete.default_keyexpr
                    ++ (codes "'): The key expression to delete\n" ++ (common_help))))))

unfoldable pub pub_help : Str
unfolding common_help
pub_help =
    codes "    Usage: z_pub [OPTIONS]\n"
    ++ (codes "\n"
        ++ (codes "    Options:\n"
            ++ (codes "        -k, --key <KEYEXPR> (optional, string, default='"
                ++ (Pub.default_keyexpr
                    ++ (codes "'): The key expression to write to\n"
                        ++ (codes "        -p, --payload <PAYLOAD> (optional, string, default='"
                            ++ (Pub.default_value
                                ++ (codes "'): The value to write\n"
                                    ++ (codes
                                          "        -a, --attach <ATTACHMENT> (optional, string, default=NULL): The attachment to add to each put\n"
                                        ++ (codes
                                              "        --add-matching-listener (optional): Add matching listener\n"
                                            ++ (common_help)))))))))))

unfoldable pub sub_help : Str
unfolding common_help
sub_help =
    codes "    Usage: z_sub [OPTIONS]\n"
    ++ (codes "\n"
        ++ (codes "    Options:\n"
            ++ (codes "        -k, --key <KEYEXPR> (optional, string, default='"
                ++ (Sub.default_keyexpr
                    ++ (codes "'): The key expression to subscribe to\n" ++ (common_help))))))

unfoldable pub queryable_help : Str
unfolding common_help
queryable_help =
    codes "    Usage: z_queryable [OPTIONS]\n"
    ++ (codes "\n"
        ++ (codes "    Options:\n"
            ++ (codes "        -k, --key <KEYEXPR> (optional, string, default='"
                ++ (Queryable.default_keyexpr
                    ++ (codes "'): The key expression matching queries to reply to\n"
                        ++ (codes "        -p, --payload <PAYLOAD> (optional, string, default='"
                            ++ (Queryable.default_value
                                ++ (codes "'): The value to reply with\n"
                                    ++ (codes
                                          "        --complete (optional): Whether the queryable is complete\n"
                                        ++ (common_help))))))))))

unfoldable pub get_help : Str
unfolding common_help
get_help =
    codes "    Usage: z_get [OPTIONS]\n"
    ++ (codes "\n"
        ++ (codes "    Options:\n"
            ++ (codes "        -s, --selector <SELECTOR> (optional, string, default='"
                ++ (Get.default_selector
                    ++ (codes "'): The selection of resources to query\n"
                        ++ (codes
                              "        -p, --payload <PAYLOAD> (optional, string): An optional value to put in the query\n"
                            ++ (codes
                                  "        -t, --target <TARGET> (optional, BEST_MATCHING | ALL | ALL_COMPLETE): Query target\n"
                                ++ (codes
                                      "        -o, --timeout <TIMEOUT_MS> (optional, number, default='"
                                    ++ (decimal Get.default_timeout_ms
                                        ++ (codes "'): Query timeout in milliseconds\n"
                                            ++ (common_help)))))))))))

unfoldable pub info_help : Str
unfolding common_help
info_help =
    codes "    Usage: z_info [OPTIONS]\n"
    ++ (codes "\n" ++ (codes "    Options:\n" ++ (common_help)))

unfoldable pub pub_thr_help : Str
unfolding common_help
pub_thr_help =
    codes "    Usage: z_pub_thr [OPTIONS] <PAYLOAD_SIZE>\n"
    ++ (codes "\n"
        ++ (codes "    Arguments:\n"
            ++ (codes "        <PAYLOAD_SIZE> (required, number): Size of the payload to publish\n"
                ++ (codes "\n"
                    ++ (codes "    Options:\n"
                        ++ (codes "        -p, --priority <PRIORITY> (optional, number ["
                            ++ (decimal (priority_value real_time)
                                ++ (codes " - "
                                    ++ (decimal (priority_value background)
                                        ++ (codes "], default='"
                                            ++ (decimal (priority_value PubThr.default_priority)
                                                ++ (codes "'): Priority for sending data\n"
                                                    ++ (codes
                                                          "        --express (optional): Batch messages.\n"
                                                        ++ (common_help))))))))))))))

unfoldable pub sub_thr_help : Str
unfolding common_help
sub_thr_help =
    codes "    Usage: z_sub_thr [OPTIONS]\n"
    ++ (codes "\n"
        ++ (codes "    Options:\n"
            ++ (codes "        -s, --samples <MEASUREMENTS> (optional, number, default='"
                ++ (decimal SubThr.default_measurements
                    ++ (codes "'): Number of throughput measurements.\n"
                        ++ (codes "        -n, --number <NUM_MESSAGES> (optional, number, default='"
                            ++ (decimal SubThr.default_messages
                                ++ (codes "'): Number of messages in each measurement.\n"
                                    ++ (common_help)))))))))
