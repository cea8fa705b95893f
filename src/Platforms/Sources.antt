-- ===== src/Platforms/Sources.antt =====
-- EXTENDED_SOURCES of app/crawlers/platforms/source_catalog.py: source names with their labels and
-- host allowlists.
use creator_engagement_proje.Base.{String, Bool, not, List, [], ◌∷◌, string_key, is_none}
use creator_engagement_proje.Base.Dict.{Dict, lookup}

unfoldable pub extended_sources : Dict String (String × List String)
extended_sources =
    ("guancha", ("风闻", "user.guancha.cn" ∷ []))
    ∷ ("yzwb", ("紫牛新闻", "wap.yzwb.net" ∷ "m.yangtse.com" ∷ "m.yzwb.net" ∷ []))
    ∷ ("guanhai", ("观海新闻", "m.guanhai.com.cn" ∷ "www.guanhai.com.cn" ∷ []))
    ∷ ("ichaoqi", ("潮起网", "www.ichaoqi.com" ∷ []))
    ∷ ("how42", ("42号车库", "www.42how.com" ∷ []))
    ∷ ("ql1d", ("齐鲁壹点", "www.ql1d.com" ∷ "m.ql1d.com" ∷ []))
    ∷ ("mydigit", ("数码之家", "www.mydigit.cn" ∷ []))
    ∷ ("sina_community", ("新浪新闻", "super.sina.cn" ∷ []))
    ∷ (
      "ofweek",
      (
        "OFweek维科网",
        "www.ofweek.com" ∷ "cloud.ofweek.com" ∷ "auto.ofweek.com" ∷ "ee.ofweek.com"
            ∷ "iot.ofweek.com" ∷ "ai.ofweek.com" ∷ "robot.ofweek.com" ∷ "chuneng.ofweek.com" ∷ [],
      ),
    )
    ∷ ("icswb", ("长沙晚报网", "www.icswb.com" ∷ []))
    ∷ ("donews", ("DoNews", "www.donews.com" ∷ []))
    ∷ ("growthhk", ("增长黑客", "www.growthhk.cn" ∷ []))
    ∷ ("d1ev", ("第一电动网", "www.d1ev.com" ∷ []))
    ∷ (
      "tonghuashun",
      (
        "同花顺",
        "t.10jqka.com.cn" ∷ "stock.10jqka.com.cn" ∷ "news.10jqka.com.cn" ∷ "m.10jqka.com.cn"
            ∷ "field.10jqka.com.cn" ∷ [],
      ),
    )
    ∷ ("thepaper", ("澎湃新闻", "www.thepaper.cn" ∷ "m.thepaper.cn" ∷ []))
    ∷ ("zhihu", ("知乎", "zhuanlan.zhihu.com" ∷ "www.zhihu.com" ∷ []))
    ∷ ("jike", ("即刻", "m.okjike.com" ∷ []))
    ∷ ("chemm", ("玩车教授", "www.chemm.com" ∷ []))
    ∷ ("ijiwei", ("爱集微", "ijiwei.com" ∷ "www.ijiwei.com" ∷ "www.laoyaoba.com" ∷ []))
    ∷ ("jianshu", ("简书", "www.jianshu.com" ∷ []))
    ∷ ("geekpark", ("极客公园", "www.geekpark.net" ∷ []))
    ∷ ("tidenews", ("潮新闻", "tidenews.com.cn" ∷ []))
    ∷ ("acfun", ("AcFun", "www.acfun.cn" ∷ []))
    ∷ (
      "shobserver",
      (
        "上观",
        "www.shobserver.cn" ∷ "www.shobserver.com" ∷ "www.jfdaily.com" ∷ "www.jfdaily.com.cn" ∷ [],
      ),
    )
    ∷ ("dingnews", ("顶端柘城", "zc.dingxinwen.cn" ∷ []))
    ∷ ("csdn", ("CSDN", "blog.csdn.net" ∷ []))
    ∷ ("kuai", ("快资讯", "www.360kuai.com" ∷ []))
    ∷ ("kr36", ("36氪", "www.36kr.com" ∷ "36kr.com" ∷ []))
    ∷ ("chooseauto", ("选车网", "www.chooseauto.com.cn" ∷ "m.chooseauto.com.cn" ∷ []))
    ∷ ("qcwp", ("汽车网评", "www.qcwp.com" ∷ []))
    ∷ ("buycar", ("买车网", "www.buycar.cn" ∷ "www.maiche.com" ∷ []))
    ∷ (
      "qq_news",
      ("腾讯新闻企鹅号", "new.qq.com" ∷ "news.qq.com" ∷ "view.inews.qq.com" ∷ "www.inews.qq.com" ∷ []),
    )
    ∷ (
      "zol",
      (
        "中关村在线",
        "auto.zol.com.cn" ∷ "news.zol.com.cn" ∷ "mobile.zol.com.cn" ∷ "pad.zol.com.cn"
            ∷ "nb.zol.com.cn" ∷ "diy.zol.com.cn" ∷ "m.zol.com.cn" ∷ [],
      ),
    )
    ∷ ("ithome", ("IT之家", "www.ithome.com" ∷ "m.ithome.com" ∷ []))
    ∷ ("smzdm", ("什么值得买", "www.smzdm.com" ∷ "post.smzdm.com" ∷ []))
    ∷ ("xcar", ("爱咖号", "aikahao.xcar.com.cn" ∷ "a.xcar.com.cn" ∷ []))
    ∷ (
      "caifuhao",
      (
        "财富号",
        "caifuhao.eastmoney.com" ∷ "emcreative.eastmoney.com" ∷ "choicemhw.eastmoney.com" ∷ [],
      ),
    )
    ∷ (
      "yiche_hao",
      ("易车号", "hao.yiche.com" ∷ "news.m.yiche.com" ∷ "news.yiche.com" ∷ "vc.m.yiche.com" ∷ []),
    )
    ∷ ("chejiahao", ("车家号", "chejiahao.autohome.com.cn" ∷ "chejiahao.m.autohome.com.cn" ∷ []))
    ∷ ("gelonghui", ("格隆汇", "www.gelonghui.com" ∷ []))
    ∷ ("dayu", ("大鱼号", "a.mp.uc.cn" ∷ "iflow.uc.cn" ∷ "m.uczzd.cn" ∷ []))
    ∷ ("guba", ("股吧", "guba.eastmoney.com" ∷ "mguba.eastmoney.com" ∷ []))
    ∷ ("yidian", ("一点资讯", "www.yidianzixun.com" ∷ []))
    ∷ ("sina_auto", ("新浪汽车", "auto.sina.cn" ∷ []))
    ∷ ("zaker", ("ZAKER", "app.myzaker.com" ∷ "app3.myzaker.com" ∷ "www.myzaker.com" ∷ []))
    ∷ ("qctt", ("汽车头条", "m.qctt.cn" ∷ "www.qctt.cn" ∷ []))
    ∷ ("ifeng_dafeng", ("大风号", "feng.ifeng.com" ∷ "ishare.ifeng.com" ∷ []))
    ∷ ("pcauto", ("太平洋号", "hj.pcauto.com.cn" ∷ "www.pcauto.com.cn" ∷ []))
    ∷ (
      "sina_news",
      (
        "新浪网",
        "auto.sina.com.cn" ∷ "finance.sina.com.cn" ∷ "news.sina.com.cn" ∷ "news.sina.cn" ∷ [],
      ),
    )
    ∷ ("dripcar", ("水滴汽车", "www.dripcar.com" ∷ "dripcar.com" ∷ []))
    ∷ ("cheshi", ("车市号", "cheshihao.cheshi.com" ∷ []))
    ∷ ("nowcoder", ("牛客网", "www.nowcoder.com" ∷ []))
    ∷ ("hafoo", ("哈富证券", "emish5.eastmoney.com" ∷ "hfmgb.eastmoney.com" ∷ []))
    ∷ ("fund1234567", ("天天基金", "h5.1234567.com.cn" ∷ []))
    ∷ (
      "eastmoney_news",
      ("东方财富网", "appcert.eastmoney.com" ∷ "finance.eastmoney.com" ∷ "gubaf10.eastmoney.com" ∷ []),
    )
    ∷ ("ximalaya", ("喜马拉雅", "m.ximalaya.com" ∷ []))
    ∷ ("choice_data", ("Choice数据", "app.jg.eastmoney.com" ∷ "choicew2z.eastmoney.com" ∷ []))
    ∷ (
      "ifeng",
      (
        "凤凰网",
        "auto.ifeng.com" ∷ "biz.ifeng.com" ∷ "finance.ifeng.com" ∷ "i.ifeng.com" ∷ "liaon.ifeng.com"
            ∷ "tech.ifeng.com" ∷ "pingce.ifeng.com" ∷ "ishare.ifeng.com" ∷ [],
      ),
    )
    ∷ ("choice_wealth", ("choice", "choiceweb.eastmoney.com" ∷ []))
    ∷ ("news18", ("网通社·汽车", "auto.news18a.com" ∷ "ev.news18a.com" ∷ "www.news18a.com" ∷ []))
    ∷ ("sina_market", ("新浪财经", "finance.sina.com.cn" ∷ "guba.sina.cn" ∷ "wap.cj.sina.cn" ∷ []))
    ∷ ("netease_video", ("网易视频", "v.163.com" ∷ []))
    ∷ ("sina_tech", ("新浪科技", "finance.sina.cn" ∷ "tech.sina.cn" ∷ []))
    ∷ ("sohu_news", ("搜狐网", "www.sohu.com" ∷ []))
    ∷ ("eastmoney", ("东方财富", "wap.eastmoney.com" ∷ []))
    ∷ []

-- platform in EXTENDED_SOURCES
unfoldable pub is_extended : String → Bool
is_extended platform = not (is_none (lookup platform extended_sources))
